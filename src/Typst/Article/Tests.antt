-- ===== src/Typst/Article/Tests.antt =====
-- Articles on examples.
use Prim.Native.Nat.{◌/◌}
use native.Mathlib.Nat.{div-mul-le_self}
use fabricatio.Prelude.{ℕ, suc, ◌*◌, ◌≤◌, ◌≡◌, refl, List, [], ◌∷◌, map, All, arith, codes}
use fabricatio.Prelude.Raises.{ok}
use fabricatio.Typst.Article.{
  Meta, Chapter, ArticleBase, SubsectionOutline, update_outline_leaf, chapter_conflict,
  update_chapter, iter_dfs, iter_dfs_rev,
}
use fabricatio.Typst.Article.Updating.{section_view, update_chapter-viewed}
use fabricatio.Typst.Article.Outlining.{from_outline, extract_outline, extract_outline-from_outline}
use fabricatio.Typst.Article.Counting.{with_count, avg_wordcount_recursive}
use fabricatio.Typst.Article.Counting.Shares.{
  total, chapter_count, IsSharedChapter, avg_wordcount_recursive-IsShared,
}

abbrev named : List ℕ → ℕ → Meta
named title count = record {
  title = title;
  description = codes "old";
  aims = [];
  expected_word_count = count;
  unstructured_body = [];
}

abbrev leaf : List ℕ → SubsectionOutline
leaf title = record { meta = named title 10 }

abbrev chapter : Chapter SubsectionOutline
chapter = record {
  meta = named (codes "C") 50;
  sections =
      record { meta = named (codes "S") 50; subsections = leaf (codes "a") ∷ leaf (codes "b") ∷ [] }
      ∷ [];
}

abbrev renewed : Chapter SubsectionOutline
renewed = record chapter {
  sections =
      record {
        meta = record {
          title = codes "S";
          description = codes "new";
          aims = codes "aim" ∷ [];
          expected_word_count = 1;
          unstructured_body = [];
        };
        subsections = leaf (codes "a") ∷ leaf (codes "b") ∷ [];
      }
      ∷ [];
}

abbrev outline : ArticleBase SubsectionOutline ℕ
outline = record { meta = named (codes "T") 100; chapters = chapter ∷ []; artifacts = 7 }

unchallenged : chapter_conflict (λ s. s.meta) chapter renewed ≡ ok []
unfolding chapter_conflict
unchallenged = refl

update_chapter-viewed_example :
    (updated : Chapter SubsectionOutline) × (update_chapter update_outline_leaf chapter renewed
      ≡ ok updated)
    × (updated.meta ≡ chapter.meta)
    × (map (section_view (λ s. s.meta)) updated.sections
        ≡ map (section_view (λ s. s.meta)) renewed.sections)
update_chapter-viewed_example =
    update_chapter-viewed (λ s. s.meta) update_outline_leaf (λ s o. refl) chapter renewed
      unchallenged

extract_outline-from_outline_example : extract_outline (from_outline outline) ≡ outline
extract_outline-from_outline_example =
    extract_outline-from_outline outline refl ((refl, ((refl, (refl, (refl, tt))), tt)), tt)

abbrev put_leaf_count : ℕ → SubsectionOutline → SubsectionOutline
put_leaf_count count s = record { meta = with_count count s.meta }

quotient_lem : (a b : ℕ) → a ≤ 9007199254740992 → (a / suc b) * suc b ≤ a
quotient_lem a b low = div-mul-le_self a (suc b)

avg_wordcount_recursive-IsShared_example :
    (shared : ArticleBase SubsectionOutline ℕ) × (avg_wordcount_recursive
        (λ a b. a / b)
        put_leaf_count
        outline
      ≡ ok shared)
    × (shared.meta ≡ outline.meta)
    × (total (map chapter_count shared.chapters) ≤ shared.meta.expected_word_count)
    × All (IsSharedChapter (λ s. s.meta.expected_word_count)) shared.chapters
avg_wordcount_recursive-IsShared_example =
    avg_wordcount_recursive-IsShared (λ a b. a / b) 9007199254740992 quotient_lem put_leaf_count
      (λ s. s.meta.expected_word_count) (λ n s. refl) outline (omega arith) (omega arith)
      ((omega arith, (omega arith, tt)), tt)

walked :
    map (λ m. m.title) (iter_dfs (λ s. s.meta) outline.chapters)
    ≡ codes "C" ∷ codes "S" ∷ codes "a" ∷ codes "b" ∷ []
unfolding iter_dfs
walked = refl

walked_rev :
    map (λ m. m.title) (iter_dfs_rev (λ s. s.meta) outline.chapters)
    ≡ codes "a" ∷ codes "b" ∷ codes "S" ∷ codes "C" ∷ []
unfolding iter_dfs_rev
walked_rev = refl
