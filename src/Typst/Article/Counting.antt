-- ===== src/Typst/Article/Counting.antt =====
-- Expected word counts, shared out from an article to its chapters, sections and subsections
-- (fabricatio_typst/models/article_base.py). `quotient a b` is `int(a / b)` for `b` above 0, which is
-- computed with floating-point numbers; `put_count` sets the count of a leaf.
pub mod Shares
use fabricatio.Prelude.{ℕ, zero, suc, ◌+◌, List, map, length}
use fabricatio.Prelude.Raises.{Result, ok, err, zero_division_error, ◌>>=◌}
use fabricatio.Prelude.Each.{for_each}
use fabricatio.Typst.Article.{Meta, Section, Chapter, ArticleBase}

abbrev pub with_count : ℕ → Meta → Meta
with_count avg meta = record meta { expected_word_count = avg }

module _ {S : Type 0} where
  abbrev pub put_chapter_count : ℕ → Chapter S → Chapter S
  put_chapter_count avg c = record c { meta = with_count avg c.meta }

  abbrev pub put_section_count : ℕ → Section S → Section S
  put_section_count avg s = record s { meta = with_count avg s.meta }

module _ (quotient : ℕ → ℕ → ℕ) where
  -- `int(expected / len(parts))`
  abbrev pub share : ℕ → ℕ → Result ℕ
  share expected zero = err zero_division_error
  share expected (suc parts) = ok (quotient expected (suc parts))

  module _ {S : Type 0} where
    -- One round of the loop of `avg_sec_wordcount`.
    unfoldable pub share_chapter : Chapter S → Result (Chapter S)
    share_chapter c = share c.meta.expected_word_count (length c.sections) >>= λ avg.
        ok (record c { sections = map (put_section_count avg) c.sections })

    module _ (put_count : ℕ → S → S) where
      -- One round of the loop of `avg_subsec_wordcount`, and those for the sections of a chapter.
      unfoldable pub share_section : Section S → Result (Section S)
      share_section s = share s.meta.expected_word_count (length s.subsections) >>= λ avg.
          ok (record s { subsections = map (put_count avg) s.subsections })

      unfoldable pub share_sections : Chapter S → Result (Chapter S)
      unfolding for_each share_section
      share_sections c =
          for_each share_section c.sections >>= λ sections. ok (record c { sections = sections })

  module _ {S P : Type 0} where
    unfoldable pub avg_chap_wordcount : ArticleBase S P → Result (ArticleBase S P)
    avg_chap_wordcount self = share self.meta.expected_word_count (length self.chapters) >>= λ avg.
        ok (record self { chapters = map (put_chapter_count avg) self.chapters })

    unfoldable pub avg_sec_wordcount : ArticleBase S P → Result (ArticleBase S P)
    unfolding for_each share_chapter
    avg_sec_wordcount self = for_each share_chapter self.chapters >>= λ chapters.
        ok (record self { chapters = chapters })

    unfoldable pub avg_subsec_wordcount : (ℕ → S → S) → ArticleBase S P → Result (ArticleBase S P)
    unfolding for_each share_sections
    avg_subsec_wordcount put_count self =
        for_each (share_sections put_count) self.chapters >>= λ chapters.
        ok (record self { chapters = chapters })

    unfoldable pub avg_wordcount_recursive :
        (ℕ → S → S) → ArticleBase S P → Result (ArticleBase S P)
    unfolding avg_chap_wordcount avg_sec_wordcount avg_subsec_wordcount
    avg_wordcount_recursive put_count self =
        avg_chap_wordcount self >>= avg_sec_wordcount >>= avg_subsec_wordcount put_count
