-- ===== src/Typst/Article/Counting/Shares.antt =====
-- The word counts that `avg_wordcount_recursive` shares out fit into those that it shares
-- (fabricatio_typst/models/article_base.py).
use fabricatio.Prelude.{
  ℕ, suc, ◌+◌, ◌*◌, ◌≤◌, ◌<◌, ◌≡◌, refl, sym, ◌∙◌, subst, List, [], ◌∷◌, map, length, All, arith,
}
use fabricatio.Prelude.Raises.{ok}
use fabricatio.Prelude.Each.{for_each-All}
use fabricatio.Typst.Article.{Section, Chapter, ArticleBase}
use fabricatio.Typst.Article.Counting.{
  put_chapter_count, put_section_count, share, share_chapter, share_section, share_sections,
  avg_chap_wordcount, avg_sec_wordcount, avg_subsec_wordcount, avg_wordcount_recursive,
}

-- The sum of the counts.
abbrev pub total : List ℕ → ℕ
total [] = 0
total (n ∷ counts) = n + total counts

both : {A : Type 0} (P Q : A → Type 0) (xs : List A) → All P xs → All Q xs → All (λ x. P x × Q x) xs
both P Q [] ps qs = tt
both P Q (x ∷ xs) ps qs = ((ps.0, qs.0), both P Q xs ps.1 qs.1)

module _ {S : Type 0} where
  abbrev pub section_count : Section S → ℕ
  section_count s = s.meta.expected_word_count

  abbrev pub chapter_count : Chapter S → ℕ
  chapter_count c = c.meta.expected_word_count

  -- The chapter has sections, and each of them subsections.
  abbrev pub IsFilledChapter : Chapter S → Type 0
  IsFilledChapter c = (0 < length c.sections) × All (λ s. 0 < length s.subsections) c.sections

  -- A count that floating-point numbers hold exactly, and parts to share it out to.
  abbrev IsOpenSection : ℕ → Section S → Type 0
  IsOpenSection exact s = (section_count s ≤ exact) × (0 < length s.subsections)

  abbrev IsOpenChapter : ℕ → Chapter S → Type 0
  IsOpenChapter exact c = (chapter_count c ≤ exact) × IsFilledChapter c

  abbrev IsHalfShared : ℕ → Chapter S → Type 0
  IsHalfShared exact c =
      (total (map section_count c.sections) ≤ chapter_count c)
      × All (IsOpenSection exact) c.sections

  -- The counts of the parts fit into that of the whole, here and below.
  abbrev pub IsSharedSection : (S → ℕ) → Section S → Type 0
  IsSharedSection count_of s = total (map count_of s.subsections) ≤ section_count s

  abbrev pub IsSharedChapter : (S → ℕ) → Chapter S → Type 0
  IsSharedChapter count_of c =
      (total (map section_count c.sections) ≤ chapter_count c)
      × All (IsSharedSection count_of) c.sections

module _ (quotient : ℕ → ℕ → ℕ) (exact : ℕ)
    (quotient_lem : (a b : ℕ) → a ≤ exact → quotient a (suc b) * suc b ≤ a) where
  module _ {A : Type 0} (put : ℕ → A → A) (count : A → ℕ)
      (law : (n : ℕ) (x : A) → count (put n x) ≡ n) where
    total-put : (avg : ℕ) (xs : List A) → total (map count (map (put avg) xs)) ≡ avg * length xs
    total-put avg [] = ground arith
    total-put avg (x ∷ xs) = ground (arith, law avg x, total-put avg xs)

    All-put :
        {P : A → Type 0} (avg : ℕ)
        → ((x : A) → P x → P (put avg x))
        → (xs : List A) → All P xs
        → All P (map (put avg) xs)
    All-put avg keep [] ps = tt
    All-put avg keep (x ∷ xs) ps = (keep x ps.0, All-put avg keep xs ps.1)

    All-count :
        (avg bound : ℕ) (xs : List A) → avg ≤ bound → All (λ x. count x ≤ bound) (map (put avg) xs)
    All-count avg bound [] h = tt
    All-count avg bound (x ∷ xs) h = (ground (arith, law avg x), All-count avg bound xs h)

    -- The shares of a list that is not empty.
    shares :
        (expected : ℕ) (xs : List A)
        → expected ≤ exact
        → 0 < length xs
        → (avg : ℕ) × (share quotient expected (length xs) ≡ ok avg)
          × (total (map count (map (put avg) xs)) ≤ expected)
          × (avg ≤ exact)
    shares expected [] low some_there = absurd (omega (arith, some_there))
    shares expected (x ∷ xs) low some_there =
        let avg = quotient expected (suc (length xs)) in
        let fits : total (map count (map (put avg) (x ∷ xs))) ≤ expected =
          subst (λ m. m ≤ expected) (sym (total-put avg (x ∷ xs)))
            (quotient_lem expected (length xs) low) in
        (avg, refl, fits, omega (arith, fits, law avg x, low))

  module _ {S : Type 0} (put_count : ℕ → S → S) (count_of : S → ℕ)
      (leaf_lem : (n : ℕ) (x : S) → count_of (put_count n x) ≡ n) where
    share_section-IsShared :
        (s : Section S)
        → IsOpenSection exact s
        → (s' : Section S) × (share_section quotient put_count s ≡ ok s')
          × (IsSharedSection count_of) s'
          × (section_count s' ≡ section_count s)
    unfolding share_section
    share_section-IsShared s open_ =
        let (avg, shared, fits, low) =
          shares put_count count_of leaf_lem (section_count s) s.subsections open_.0 open_.1 in
        (record s { subsections = map (put_count avg) s.subsections }, rw shared refl, fits, refl)

    share_chapter-IsHalfShared :
        (c : Chapter S)
        → IsOpenChapter exact c
        → (c' : Chapter S) × (share_chapter quotient c ≡ ok c')
          × (IsHalfShared exact) c'
          × (chapter_count c' ≡ chapter_count c)
    unfolding share_chapter
    share_chapter-IsHalfShared c open_ =
        let (avg, shared, fits, low) =
          shares put_section_count section_count (λ n s. refl) (chapter_count c) c.sections open_.0
            open_.1.0 in
        (
          record c { sections = map (put_section_count avg) c.sections },
          rw shared refl,
          (
            fits,
            both (λ s. section_count s ≤ exact) (λ s. 0 < length s.subsections)
                (map (put_section_count avg) c.sections)
                (All-count put_section_count section_count (λ n s. refl) avg exact c.sections low)
                (All-put put_section_count section_count (λ n s. refl) avg (λ s p. p) c.sections
                  open_.1.1),
          ),
          refl,
        )

    share_sections-IsShared :
        (c : Chapter S)
        → (IsHalfShared exact) c
        → (c' : Chapter S) × (share_sections quotient put_count c ≡ ok c')
          × (IsSharedChapter count_of) c'
          × (chapter_count c' ≡ chapter_count c)
    unfolding share_sections
    share_sections-IsShared c half =
        let (sections, done, shared, same) =
          for_each-All {P = (IsOpenSection exact)} {Q = (IsSharedSection count_of)}
            (share_section quotient put_count) section_count share_section-IsShared c.sections
            half.1 in
        (
          record c { sections = sections },
          rw done refl,
          (subst (λ counts. total counts ≤ chapter_count c) (sym same) half.0, shared),
          refl,
        )

    -- Let `int(a / b)` times `b` be at most `a` for all counts up to a bound, which floating-point
    -- numbers hold exactly. Where the count of the article is within the bound, and the article has
    -- chapters, every chapter sections and every section subsections, `avg_wordcount_recursive`
    -- returns; the counts of the chapters then sum up to at most that of the article, those of the
    -- sections to that of their chapter, and those of the subsections to that of their section.
    pub avg_wordcount_recursive-IsShared :
        {P : Type 0} (self : ArticleBase S P)
        → self.meta.expected_word_count ≤ exact
        → 0 < length self.chapters
        → All IsFilledChapter self.chapters
        → (shared : ArticleBase S P) × (avg_wordcount_recursive quotient put_count self ≡ ok shared)
          × (shared.meta ≡ self.meta)
          × (total (map chapter_count shared.chapters) ≤ shared.meta.expected_word_count)
          × All (IsSharedChapter count_of) shared.chapters
    unfolding avg_wordcount_recursive avg_chap_wordcount avg_sec_wordcount avg_subsec_wordcount
    avg_wordcount_recursive-IsShared self low some_there filled =
        let (avg, shared, fits, avg_low) =
          shares put_chapter_count chapter_count (λ n c. refl) self.meta.expected_word_count
            self.chapters low some_there in
        let chapters1 = map (put_chapter_count avg) self.chapters in
        let open_ : All (IsOpenChapter exact) chapters1 =
          both (λ c. chapter_count c ≤ exact) IsFilledChapter chapters1
            (All-count put_chapter_count chapter_count (λ n c. refl) avg exact self.chapters
              avg_low)
            (All-put put_chapter_count chapter_count (λ n c. refl) avg (λ c p. p) self.chapters
              filled) in
        let (chapters2, done2, half, same2) =
          for_each-All {P = (IsOpenChapter exact)} {Q = (IsHalfShared exact)}
            (share_chapter quotient) chapter_count share_chapter-IsHalfShared chapters1 open_ in
        let (chapters3, done3, all_shared, same3) =
          for_each-All {P = (IsHalfShared exact)} {Q = (IsSharedChapter count_of)}
            (share_sections quotient put_count) chapter_count share_sections-IsShared chapters2
            half in
        (
          record self { chapters = chapters3 },
          rw
              (
                avg_wordcount_recursive, avg_chap_wordcount, shared, avg_sec_wordcount, done2,
                avg_subsec_wordcount, done3,
              )
              refl,
          refl,
          subst (λ counts. total counts ≤ self.meta.expected_word_count) (sym (same3 ∙ same2)) fits,
          all_shared,
        )
