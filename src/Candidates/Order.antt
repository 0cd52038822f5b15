-- ===== src/Candidates/Order.antt =====
-- The comparison of sortCandidates is a strict weak order.
use symphony_go.Prelude.{true, false, ◌≡◌, refl, Text, text_lt, [], ◌∷◌, arith}
use symphony_go.Domain.{Issue}
use symphony_go.Candidates.Sorters.{IsStrictOrder}
use symphony_go.Candidates.{Rank, rank, rank_lt, candidate_less}

text_lt-asymm : (a b : Text) → text_lt a b ≡ true → text_lt b a ≡ false
unfolding text_lt
text_lt-asymm [] [] h = refl
text_lt-asymm [] (y ∷ ys) h = refl
text_lt-asymm (x ∷ xs) [] h = cc
text_lt-asymm (x ∷ xs) (y ∷ ys) h = ground (arith, text_lt-asymm xs ys)

-- "Not less" is transitive.
text_lt-cotrans : (a b c : Text) → text_lt b a ≡ false → text_lt c b ≡ false → text_lt c a ≡ false
unfolding text_lt
text_lt-cotrans [] [] [] h k = refl
text_lt-cotrans [] [] (z ∷ zs) h k = refl
text_lt-cotrans [] (y ∷ ys) [] h k = cc
text_lt-cotrans [] (y ∷ ys) (z ∷ zs) h k = refl
text_lt-cotrans (x ∷ xs) [] [] h k = cc
text_lt-cotrans (x ∷ xs) [] (z ∷ zs) h k = cc
text_lt-cotrans (x ∷ xs) (y ∷ ys) [] h k = cc
text_lt-cotrans (x ∷ xs) (y ∷ ys) (z ∷ zs) h k = ground (arith, text_lt-cotrans xs ys zs)

rank_lt-asymm : (a b : Rank) → rank_lt a b ≡ true → rank_lt b a ≡ false
unfolding rank_lt
rank_lt-asymm a b h = ground (arith, text_lt-asymm a.identifier b.identifier)

rank_lt-cotrans : (a b c : Rank) → rank_lt b a ≡ false → rank_lt c b ≡ false → rank_lt c a ≡ false
unfolding rank_lt
rank_lt-cotrans a b c h k = ground (arith, text_lt-cotrans a.identifier b.identifier c.identifier)

candidate_less-asymm : (a b : Issue) → candidate_less a b ≡ true → candidate_less b a ≡ false
unfolding candidate_less
candidate_less-asymm a b h = rank_lt-asymm (rank a) (rank b) h

candidate_less-cotrans :
    (a b c : Issue)
    → candidate_less b a ≡ false
    → candidate_less c b ≡ false
    → candidate_less c a ≡ false
unfolding candidate_less
candidate_less-cotrans a b c h k = rank_lt-cotrans (rank a) (rank b) (rank c) h k

pub candidate_less-IsStrictOrder : IsStrictOrder candidate_less
candidate_less-IsStrictOrder = record {
  asymm = candidate_less-asymm;
  cotrans = candidate_less-cotrans;
}
