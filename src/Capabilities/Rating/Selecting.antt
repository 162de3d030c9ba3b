-- ===== src/Capabilities/Rating/Selecting.antt =====
-- What `best` and `order_rated` return (fabricatio_capabilities/capabilities/rating.py and order.py).
use fabricatio.Prelude.{
  ℕ, ◌≡◌, ◌↔◌, Bool, true, some, List, ◌∷◌, map, In, length, arith, Text, if◌then◌else◌, inl, inr,
}
use fabricatio.Prelude.Raises.{Result, ok, Result-cases}
use fabricatio.Prelude.Sorting.{
  Less, by_key, reversed, IsAscending, sorted-IsAscending, length-sorted, In-sorted, sorted-In,
}
use fabricatio.Capabilities.Order.{sort_pack, firsts, zip, order_rated}
use fabricatio.Capabilities.Rating.Scoring.{Numbers, zip_strict, take, best}

module _ {A F : Type 0} (o : Less F) where
  -- The pairs of `pack`, each at least once and as many, so that the scores never fall, or never rise
  -- if `reverse` is set.
  pub record IsRanking (reverse : Bool) (pack ranked : List (A × F)) : Type 0 where
    pub in_order :
        IsAscending (by_key {A = A × F} (λ p. p.1) (if reverse then reversed o else o)) ranked
    pub same_length : length ranked ≡ length pack
    pub same_pairs : (p : A × F) → In p ranked ↔ In p pack

  pub sort_pack-IsRanking :
      (reverse : Bool) (pack : List (A × F)) → IsRanking reverse pack (sort_pack o reverse pack)
  unfolding sort_pack
  sort_pack-IsRanking reverse pack =
      let order = by_key {A = A × F} (λ p. p.1) (if reverse then reversed o else o) in
      record {
        in_order = sorted-IsAscending order pack;
        same_length = length-sorted order pack;
        same_pairs = λ p. (In-sorted order p pack, sorted-In order p pack);
      }

  -- The list that `order_rated` returns is ranked by the composite scores of its texts.
  pub order_rated-IsRanking :
      (composite_score : List Text → Result (List F)) (text_of : A → Text) (seq out : List A)
      (reverse : Bool)
      → order_rated o composite_score text_of seq reverse ≡ ok out
      → (scores : List F) × (ranked : List (A × F)) × (composite_score (map text_of seq)
          ≡ ok scores)
        × (out ≡ firsts ranked)
        × IsRanking reverse (zip seq scores) ranked
  unfolding order_rated
  order_rated-IsRanking composite_score text_of seq out reverse h =
      elim (Result-cases (composite_score (map text_of seq))) [
        | inr (e, failed) ↦ absurd (ground arith)
        | inl (scores, scored) ↦ (
          scores,
          sort_pack o reverse (zip seq scores),
          scored,
          ground arith,
          sort_pack-IsRanking reverse (zip seq scores),
        )
      ]

module _ {A F : Type 0} (n : Numbers F) where
  -- For two candidates or more, `best` returns the first `k` candidates of a ranking from the highest
  -- score down: no candidate in the list has a lower score than one that stands behind it in the
  -- ranking.
  pub best-IsRanking :
      (scores : List Text → Result (List F)) (text_of : A → Text) (k : ℕ) (c d : A)
      (candidates out : List A)
      → best n scores text_of k (c ∷ d ∷ candidates) ≡ ok (some out)
      → (rating_seq : List F) × (pack ranked : List (A × F)) × (scores
            (map text_of (c ∷ d ∷ candidates))
          ≡ ok rating_seq)
        × (zip_strict (c ∷ d ∷ candidates) rating_seq ≡ ok pack)
        × (out ≡ firsts (take k ranked))
        × IsRanking n.order true pack ranked
  unfolding best
  best-IsRanking scores text_of k c d candidates out h =
      elim (Result-cases (scores (map text_of (c ∷ d ∷ candidates)))) [
        | inr (e, failed) ↦ absurd (ground arith)
        | inl (rating_seq, scored) ↦
            elim (Result-cases (zip_strict (c ∷ d ∷ candidates) rating_seq)) [
              | inr (e, failed) ↦ absurd (ground arith)
              | inl (pack, zipped) ↦ (
                rating_seq,
                pack,
                sort_pack n.order true pack,
                scored,
                zipped,
                ground arith,
                sort_pack-IsRanking n.order true pack,
              )
            ]
      ]
