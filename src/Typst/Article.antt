-- ===== src/Typst/Article.antt =====
-- The tree of an article, packages/fabricatio-typst/python/fabricatio_typst/models/article_base.py,
-- with the metadata of meta.py, the outline of article_outline.py and the article of article_main.py.
-- The leaves are elements of `S`, a component is known by its metadata, and `P` is the type of the
-- shared artifacts.
pub mod Updating
pub mod Outlining
pub mod Counting
mod Tests
use fabricatio.Prelude.{
  ℕ, zero, suc, ◌≡◌, Bool, true, false, Option, none, some, List, [], ◌∷◌, ◌++◌, map, length,
  is_empty, nat_beq, leb, ◌==◌, Eq, list_eq, nat_eq, Text, codes, join, strip, if◌then◌else◌,
}
use fabricatio.Prelude.Raises.{Result, ok, err, value_error, zero_division_error, ◌>>=◌}
use fabricatio.Comfy.Numbers.{str_of}

-- `ArticleMetaData`
pub record Meta : Type 0 where
  pub title : Text
  pub description : Text
  pub aims : List Text
  pub expected_word_count : ℕ
  pub unstructured_body : Text

pub record Section (S : Type 0) : Type 0 where
  pub meta : Meta
  pub subsections : List S

pub record Chapter (S : Type 0) : Type 0 where
  pub meta : Meta
  pub sections : List (Section S)

pub record ArticleBase (S P : Type 0) : Type 0 where
  pub meta : Meta
  pub chapters : List (Chapter S)
  pub artifacts : P

-- `ArticleSubsectionOutline`
pub record SubsectionOutline : Type 0 where
  pub meta : Meta

pub record Paragraph : Type 0 where
  pub expected_word_count : ℕ
  pub description : Text
  pub aims : List Text
  pub content : Text

-- `ArticleSubsection`
pub record Subsection : Type 0 where
  pub meta : Meta
  pub paragraphs : List Paragraph

-- `update_metadata`; the two objects do not share their list of aims.
abbrev pub update_metadata : Meta → Meta → Meta
update_metadata self other = record self { aims = other.aims; description = other.description }

-- `SubSectionBase.update_from` of an outline, and that of an article
abbrev pub update_outline_leaf : SubsectionOutline → SubsectionOutline → SubsectionOutline
update_outline_leaf self other = record { meta = update_metadata self.meta other.meta }

abbrev pub update_article_leaf : Subsection → Subsection → Subsection
update_article_leaf self other = record {
  meta = update_metadata self.meta other.meta;
  paragraphs = other.paragraphs;
}

-- The message for two titles that differ.
unfoldable pub title_conflict : Meta → Meta → Text
title_conflict self other =
    if self.title == other.title
    then []
    else codes "Title mismatched, expected `"
      ++ self.title
      ++ codes "`, got `"
      ++ other.title
      ++ codes "`"

-- The message for two counts that differ; `word` is its first word.
unfoldable pub count_conflict : Text → ℕ → ℕ → Text
unfolding str_of
count_conflict word expected got =
    if nat_beq expected got
    then []
    else word
      ++ codes " count mismatched, expected `"
      ++ str_of expected
      ++ codes "`, got `"
      ++ str_of got
      ++ codes "`"

-- `[conf for s, o in zip(selves, others, strict=True) if (conf := s.resolve_update_conflict(o))]`
unfoldable pub conflicts :
    {A : Type 0} → (A → A → Result Text) → List A → List A → Result (List Text)
conflicts resolve [] [] = ok []
conflicts resolve [] (o ∷ others) = err value_error
conflicts resolve (s ∷ selves) [] = err value_error
conflicts resolve (s ∷ selves) (o ∷ others) =
    let rest = conflicts resolve selves others in
    resolve s o >>= λ conf. rest >>= λ confs. ok (if is_empty conf then confs else conf ∷ confs)

-- `out or "\n".join(…)`
abbrev pub out_or : Text → Result (List Text) → Result Text
out_or [] confs = confs >>= λ parts. ok (join (codes "\n") parts)
out_or (c ∷ out) confs = ok (c ∷ out)

-- `for self_sec, other_sec in zip(selves, others, strict=True): self_sec.update_from(other_sec)`
unfoldable pub update_each : {A : Type 0} → (A → A → Result A) → List A → List A → Result (List A)
update_each update_from [] [] = ok []
update_each update_from [] (o ∷ others) = err value_error
update_each update_from (s ∷ selves) [] = err value_error
update_each update_from (s ∷ selves) (o ∷ others) =
    let rest = update_each update_from selves others in
    update_from s o >>= λ updated. rest >>= λ updates. ok (updated ∷ updates)

module _ {S : Type 0} (meta_of : S → Meta) where
  -- `resolve_update_conflict` of the three levels
  unfoldable pub leaf_conflict : S → S → Result Text
  unfolding title_conflict
  leaf_conflict self other = ok (title_conflict (meta_of self) (meta_of other))

  unfoldable pub section_conflict : Section S → Section S → Result Text
  unfolding title_conflict count_conflict conflicts leaf_conflict join
  section_conflict self other =
      out_or
        (title_conflict self.meta other.meta
          ++ count_conflict (codes "Section") (length self.subsections) (length other.subsections))
        (conflicts leaf_conflict self.subsections other.subsections)

  unfoldable pub chapter_conflict : Chapter S → Chapter S → Result Text
  unfolding title_conflict count_conflict conflicts section_conflict join
  chapter_conflict self other =
      out_or
        (title_conflict self.meta other.meta
          ++ count_conflict (codes "Chapter") (length self.sections) (length other.sections))
        (conflicts section_conflict self.sections other.sections)

  -- The walks through the tree.
  unfoldable pub section_components : List (Section S) → List Meta
  section_components [] = []
  section_components (sec ∷ sections) =
      sec.meta ∷ map meta_of sec.subsections ++ section_components sections

  unfoldable pub iter_dfs : List (Chapter S) → List Meta
  unfolding section_components
  iter_dfs [] = []
  iter_dfs (chap ∷ chapters) = chap.meta ∷ section_components chap.sections ++ iter_dfs chapters

  unfoldable pub section_components_rev : List (Section S) → List Meta
  section_components_rev [] = []
  section_components_rev (sec ∷ sections) =
      map meta_of sec.subsections ++ sec.meta ∷ section_components_rev sections

  unfoldable pub iter_dfs_rev : List (Chapter S) → List Meta
  unfolding section_components_rev
  iter_dfs_rev [] = []
  iter_dfs_rev (chap ∷ chapters) =
      section_components_rev chap.sections ++ chap.meta ∷ iter_dfs_rev chapters

module _ {S : Type 0} (update_leaf : S → S → S) where
  -- `update_from` of a section and of a chapter: that of a chapter leaves the chapter's metadata.
  unfoldable pub update_section : Section S → Section S → Result (Section S)
  unfolding update_each
  update_section self other =
      (if is_empty self.subsections
        then ok other.subsections
        else update_each (λ s o. ok (update_leaf s o)) self.subsections other.subsections)
      >>= λ subsections.
          ok (record { meta = update_metadata self.meta other.meta; subsections = subsections })

  unfoldable pub update_chapter : Chapter S → Chapter S → Result (Chapter S)
  unfolding update_each update_section
  update_chapter self other =
      (if is_empty self.sections
        then ok other.sections
        else update_each update_section self.sections other.sections)
      >>= λ sections. ok (record self { sections = sections })

abbrev pub pair_all : {A B : Type 0} → A → List B → List (A × B)
pair_all x [] = []
pair_all x (y ∷ ys) = (x, y) ∷ pair_all x ys

unfoldable pub iter_sections : {S : Type 0} → List (Chapter S) → List (Chapter S × Section S)
iter_sections [] = []
iter_sections (chap ∷ chapters) = pair_all chap chap.sections ++ iter_sections chapters

abbrev pub pair_subsections :
    {S : Type 0} → List (Chapter S × Section S) → List (Chapter S × Section S × S)
pair_subsections [] = []
pair_subsections ((chap, sec) ∷ pairs) =
    map (λ subsec. (chap, sec, subsec)) sec.subsections ++ pair_subsections pairs

unfoldable pub iter_subsections : {S : Type 0} → List (Chapter S) → List (Chapter S × Section S × S)
unfolding iter_sections
iter_subsections chapters = pair_subsections (iter_sections chapters)
