-- ===== src/Typst/Article/Outlining.antt =====
-- From an outline to an article and back: `Article.from_outline` and `Article.extract_outline`,
-- packages/fabricatio-typst/python/fabricatio_typst/models/article_main.py.
use fabricatio.Prelude.{◌≡◌, refl, sym, ap, All, List, [], ◌∷◌, map}
use fabricatio.Typst.Article.{Meta, Section, Chapter, ArticleBase, SubsectionOutline, Subsection}

-- The metadata behind `model_dump` and the constructor: the unstructured body is private to an object.
abbrev pub dumped : Meta → Meta
dumped meta = record meta { unstructured_body = [] }

abbrev pub map_section : {S T : Type 0} → (S → T) → Section S → Section T
map_section leaf section = record {
  meta = dumped section.meta;
  subsections = map leaf section.subsections;
}

abbrev pub map_chapter : {S T : Type 0} → (S → T) → Chapter S → Chapter T
map_chapter leaf chapter = record {
  meta = dumped chapter.meta;
  sections = map (map_section leaf) chapter.sections;
}

abbrev pub leaf_from_outline : SubsectionOutline → Subsection
leaf_from_outline subsection = record { meta = dumped subsection.meta; paragraphs = [] }

abbrev pub leaf_to_outline : Subsection → SubsectionOutline
leaf_to_outline subsection = record { meta = dumped subsection.meta }

module _ {P : Type 0} where
  unfoldable pub from_outline : ArticleBase SubsectionOutline P → ArticleBase Subsection P
  from_outline outline = record {
    meta = dumped outline.meta;
    chapters = map (map_chapter leaf_from_outline) outline.chapters;
    artifacts = outline.artifacts;
  }

  unfoldable pub extract_outline : ArticleBase Subsection P → ArticleBase SubsectionOutline P
  extract_outline article = record {
    meta = dumped article.meta;
    chapters = map (map_chapter leaf_to_outline) article.chapters;
    artifacts = article.artifacts;
  }

-- No component has an unstructured body.
abbrev pub IsPlain : Meta → Type 0
IsPlain meta = meta.unstructured_body ≡ []

abbrev pub IsPlainSection : Section SubsectionOutline → Type 0
IsPlainSection section = IsPlain section.meta × All (λ s. IsPlain s.meta) section.subsections

abbrev pub IsPlainChapter : Chapter SubsectionOutline → Type 0
IsPlainChapter chapter = IsPlain chapter.meta × All IsPlainSection chapter.sections

dumped_plain : (meta : Meta) → IsPlain meta → dumped (dumped meta) ≡ meta
dumped_plain meta h = ap (λ body. record meta { unstructured_body = body }) (sym h)

map_back :
    {A B : Type 0} {P : A → Type 0} (f : A → B) (g : B → A)
    → ((a : A) → P a → g (f a) ≡ a)
    → (items : List A) → All P items
    → map g (map f items) ≡ items
map_back f g back [] h = refl
map_back f g back (a ∷ items) h = rw (back a h.0, map_back f g back items h.1) refl

outline_leaf_back :
    (s : SubsectionOutline) → IsPlain s.meta → leaf_to_outline (leaf_from_outline s) ≡ s
outline_leaf_back s h = ap (λ m. record { meta = m }) (dumped_plain s.meta h)

section_back :
    (s : Section SubsectionOutline)
    → IsPlainSection s
    → map_section leaf_to_outline (map_section leaf_from_outline s) ≡ s
section_back s h =
    rw
      (
        dumped_plain s.meta h.0,
        map_back leaf_from_outline leaf_to_outline outline_leaf_back s.subsections h.1,
      )
      refl

chapter_back :
    (c : Chapter SubsectionOutline)
    → IsPlainChapter c
    → map_chapter leaf_to_outline (map_chapter leaf_from_outline c) ≡ c
chapter_back c h =
    rw
      (
        dumped_plain c.meta h.0,
        map_back (map_section leaf_from_outline) (map_section leaf_to_outline) section_back
            c.sections h.1,
      )
      refl

-- The outline of an article that was made from an outline without unstructured bodies is this outline,
-- with its artifacts.
pub extract_outline-from_outline :
    {P : Type 0} (outline : ArticleBase SubsectionOutline P)
    → IsPlain outline.meta
    → All IsPlainChapter outline.chapters
    → extract_outline (from_outline outline) ≡ outline
unfolding extract_outline from_outline
extract_outline-from_outline outline h hs =
    rw
      (
        dumped_plain outline.meta h,
        map_back (map_chapter leaf_from_outline) (map_chapter leaf_to_outline) chapter_back
            outline.chapters hs,
      )
      refl
