-- ===== src/Typst/Article/Updating.antt =====
-- What `update_from` changes where `resolve_update_conflict` finds nothing
-- (fabricatio_typst/models/article_base.py).
use fabricatio.Prelude.{
  ◌≡◌, refl, sym, ap, ◌∙◌, true, inl, inr, List, [], ◌∷◌, ◌++◌, map, is_empty, list_beq_iff, arith,
  ◌==◌, list_eq, nat_eq, Text, codes, join, if◌then◌else◌, Bool-cases,
}
use fabricatio.Prelude.Raises.{Result, ok, >>=-ok-elim}
use fabricatio.Typst.Article.{
  Meta, Section, Chapter, update_metadata, title_conflict, conflicts, out_or, update_each,
  leaf_conflict, section_conflict, chapter_conflict, update_section, update_chapter,
}

append_nil_split : {A : Type 0} (xs ys : List A) → xs ++ ys ≡ [] → (xs ≡ []) × (ys ≡ [])
append_nil_split [] ys h = (refl, h)
append_nil_split (x ∷ xs) ys h = absurd (ground arith)

is_empty-nil : {A : Type 0} (xs : List A) → is_empty xs ≡ true → xs ≡ []
is_empty-nil [] h = refl
is_empty-nil (x ∷ xs) h = absurd (ground arith)

title_conflict-none :
    (self other : Meta) → title_conflict self other ≡ [] → self.title ≡ other.title
unfolding title_conflict
title_conflict-none self other h = elim (Bool-cases (self.title == other.title)) [
  | inl same ↦ (list_beq_iff self.title other.title).0 same
  | inr differs ↦ absurd (ground arith)
]

join-first : (sep part : Text) (parts : List Text) → join sep (part ∷ parts) ≡ [] → part ≡ []
unfolding join
join-first sep part [] h = h
join-first sep part (p ∷ parts) h = (append_nil_split part _ h).0

module _ {A : Type 0} (resolve : A → A → Result Text) where
  record Conflicts (s : A) (selves : List A) (o : A) (others : List A) (confs : List Text)
      : Type 0 where
    conf : Text
    later : List Text
    first : resolve s o ≡ ok conf
    rest : conflicts resolve selves others ≡ ok later
    all : (if is_empty conf then later else conf ∷ later) ≡ confs

  conflicts-split :
      (s : A) (selves : List A) (o : A) (others : List A) (confs : List Text)
      → conflicts resolve (s ∷ selves) (o ∷ others) ≡ ok confs
      → Conflicts s selves o others confs
  unfolding conflicts
  conflicts-split s selves o others confs h = >>=-ok-elim (resolve s o) _ h λ conf first h1.
      >>=-ok-elim (conflicts resolve selves others) _ h1 λ later rest h2. record {
        conf = conf;
        later = later;
        first = first;
        rest = rest;
        all = ground arith;
      }

  -- The texts that are joined are not empty.
  conflicts-join :
      (selves others : List A) (confs : List Text)
      → conflicts resolve selves others ≡ ok confs
      → join (codes "\n") confs ≡ []
      → confs ≡ []
  unfolding conflicts
  conflicts-join [] [] confs h j = ground arith
  conflicts-join [] (o ∷ others) confs h j = absurd (ground arith)
  conflicts-join (s ∷ selves) [] confs h j = absurd (ground arith)
  conflicts-join (s ∷ selves) (o ∷ others) confs h j =
      let c = conflicts-split s selves o others confs h in
      elim (Bool-cases (is_empty c.conf)) [
        | inl nothing ↦
            let same : c.later ≡ confs = sym (rw nothing refl) ∙ c.all in
            conflicts-join selves others confs (c.rest ∙ ap ok same) j
        | inr something ↦
            let listed : c.conf ∷ c.later ≡ confs = sym (rw something refl) ∙ c.all in
            let empty : c.conf ≡ [] =
              join-first (codes "\n") c.conf c.later (ap (join (codes "\n")) listed ∙ j) in
            absurd (ground arith)
      ]

  -- Where there are no conflicts, none of the pairs has one.
  conflicts-none :
      (s : A) (selves : List A) (o : A) (others : List A)
      → conflicts resolve (s ∷ selves) (o ∷ others) ≡ ok []
      → (resolve s o ≡ ok []) × (conflicts resolve selves others ≡ ok [])
  conflicts-none s selves o others h =
      let c = conflicts-split s selves o others [] h in
      elim (Bool-cases (is_empty c.conf)) [
        | inl nothing ↦
            let empty : c.conf ≡ [] = is_empty-nil c.conf nothing in
            let same : c.later ≡ [] = sym (rw nothing refl) ∙ c.all in
            (c.first ∙ ap ok empty, c.rest ∙ ap ok same)
        | inr something ↦
            let listed : c.conf ∷ c.later ≡ [] = sym (rw something refl) ∙ c.all in
            absurd (ground arith)
      ]

module _ {A V : Type 0} (resolve : A → A → Result Text) (update : A → A → Result A)
    (view : A → V) where
  update_each-viewed :
      ((s o : A) → resolve s o ≡ ok [] → (u : A) × (update s o ≡ ok u) × (view u ≡ view o))
      → (selves others : List A) → conflicts resolve selves others ≡ ok []
      → (us : List A) × (update_each update selves others ≡ ok us) × (map view us ≡ map view others)
  unfolding update_each conflicts
  update_each-viewed step [] [] h = ([], refl, refl)
  update_each-viewed step [] (o ∷ others) h = absurd (ground arith)
  update_each-viewed step (s ∷ selves) [] h = absurd (ground arith)
  update_each-viewed step (s ∷ selves) (o ∷ others) h =
      let (here, later) = conflicts-none resolve s selves o others h in
      let (u, updated, seen) = step s o here in
      let (us, updates, all_seen) = update_each-viewed step selves others later in
      (u ∷ us, rw (update_each, updated, updates) refl, rw (seen, all_seen) refl)

out_or-none :
    {A : Type 0} (resolve : A → A → Result Text) (out : Text) (selves others : List A)
    → out_or out (conflicts resolve selves others) ≡ ok []
    → (out ≡ []) × (conflicts resolve selves others ≡ ok [])
out_or-none resolve (c ∷ out) selves others h = absurd (ground arith)
out_or-none resolve [] selves others h =
    >>=-ok-elim (conflicts resolve selves others) _ h λ confs found h1.
      (refl, found ∙ ap ok (conflicts-join resolve selves others confs found (ground arith)))

-- What a component shows: the title, the description and the aims.
abbrev pub shown : Meta → Text × Text × List Text
shown meta = (meta.title, meta.description, meta.aims)

shown-update_metadata :
    (self other : Meta)
    → self.title ≡ other.title
    → shown (update_metadata self other) ≡ shown other
shown-update_metadata self other same = ap (λ title. (title, other.description, other.aims)) same

-- A section as it shows itself, with its subsections.
abbrev pub section_view :
    {S : Type 0}
    → (S → Meta)
    → Section S
    → (Text × Text × List Text) × List (Text × Text × List Text)
section_view meta_of section =
    (shown section.meta, map (λ s. shown (meta_of s)) section.subsections)

module _ {S : Type 0} (meta_of : S → Meta) (update_leaf : S → S → S)
    (leaf_lem : (s o : S)
      → meta_of (update_leaf s o) ≡ update_metadata (meta_of s) (meta_of o)) where
  leaf-viewed :
      (s o : S)
      → leaf_conflict meta_of s o ≡ ok []
      → (u : S) × (ok (update_leaf s o) ≡ ok u) × (shown (meta_of u) ≡ shown (meta_of o))
  unfolding leaf_conflict
  leaf-viewed s o h =
      let same = title_conflict-none (meta_of s) (meta_of o) (ground arith) in
      (
        update_leaf s o,
        refl,
        ap shown (leaf_lem s o) ∙ shown-update_metadata (meta_of s) (meta_of o) same,
      )

  section-viewed :
      (s o : Section S)
      → section_conflict meta_of s o ≡ ok []
      → (u : Section S) × (update_section update_leaf s o ≡ ok u)
        × (section_view meta_of u ≡ section_view meta_of o)
  unfolding section_conflict update_section
  section-viewed s o h =
      let (out, none_below) = out_or-none (leaf_conflict meta_of) _ s.subsections o.subsections h in
      let same = title_conflict-none s.meta o.meta (append_nil_split _ _ out).0 in
      let head = shown-update_metadata s.meta o.meta same in
      elim (Bool-cases (is_empty s.subsections)) [
        | inl empty ↦ (
          record { meta = update_metadata s.meta o.meta; subsections = o.subsections },
          rw empty refl,
          rw head refl,
        )
        | inr some_there ↦
            let (us, updates, seen) =
              update_each-viewed (leaf_conflict meta_of) (λ s o. ok (update_leaf s o))
                (λ s. shown (meta_of s)) leaf-viewed s.subsections o.subsections none_below in
            (
              record { meta = update_metadata s.meta o.meta; subsections = us },
              rw (some_there, updates) refl,
              rw (head, seen) refl,
            )
      ]

  -- Where the update of a subsection updates its metadata and `resolve_update_conflict` finds nothing
  -- between two chapters, `update_from` succeeds: every section and subsection then shows the title,
  -- the description and the aims of its counterpart, and the chapter itself keeps its metadata.
  pub update_chapter-viewed :
      (self other : Chapter S)
      → chapter_conflict meta_of self other ≡ ok []
      → (updated : Chapter S) × (update_chapter update_leaf self other ≡ ok updated)
        × (updated.meta ≡ self.meta)
        × (map (section_view meta_of) updated.sections ≡ map (section_view meta_of) other.sections)
  unfolding chapter_conflict update_chapter
  update_chapter-viewed self other h =
      let (out, none_below) =
        out_or-none (section_conflict meta_of) _ self.sections other.sections h in
      elim (Bool-cases (is_empty self.sections)) [
        | inl empty ↦ (record self { sections = other.sections }, rw empty refl, refl, refl)
        | inr some_there ↦
            let (us, updates, seen) =
              update_each-viewed (section_conflict meta_of) (update_section update_leaf)
                (section_view meta_of) section-viewed self.sections other.sections none_below in
            (record self { sections = us }, rw (some_there, updates) refl, refl, seen)
      ]
