-- ===== src/ShardCtrler/Counting.antt =====
-- How often a number stands in a list, for the shards of a group and the ids of the groups.
use mathlib.Core.Option.{some_inj, none-ne-some}
use mit_6824_raft.Prelude.{
  ℕ, zero, suc, ◌+◌, ◌≤◌, ◌<◌, ◌≡◌, ◌∙◌, inl, inr, refl, ap, sym, Bool, true, false, none, some,
  List, [], ◌∷◌, ◌++◌, length, get_elem?, set, All, if◌then◌else◌, ◌==◌, arith, Option-cases,
  Bool-cases, if_true, if_false, ==_iff, ℕ_discrete, lt-get_elem?,
}
use mit_6824_raft.ShardCtrler.Rebalance.{insert_sorted, sort_ints, last_owned}

abbrev pub one_if : Bool → ℕ
one_if true = 1
one_if false = 0

unfoldable pub occ : ℕ → List ℕ → ℕ
occ g [] = 0
occ g (x ∷ xs) = one_if (x == g) + occ g xs

-- The occurrences of all of the first list's numbers in the second.
unfoldable pub sum_occ : List ℕ → List ℕ → ℕ
sum_occ [] xs = 0
sum_occ (g ∷ gs) xs = occ g xs + sum_occ gs xs

pub occ-append : (g : ℕ) (xs ys : List ℕ) → occ g (xs ++ ys) ≡ occ g xs + occ g ys
unfolding occ
occ-append g [] ys = omega arith
occ-append g (x ∷ xs) ys = omega (arith, occ-append g xs ys)

pub occ-le-length : (g : ℕ) (xs : List ℕ) → occ g xs ≤ length xs
unfolding occ
occ-le-length g [] = omega arith
occ-le-length g (x ∷ xs) = ground (arith, occ-le-length g xs)

pub occ-set :
    (g s v : ℕ) (xs : List ℕ) {old : ℕ}
    → get_elem? xs s ≡ some old
    → occ g (set xs s v) + one_if (old == g) ≡ occ g xs + one_if (v == g)
unfolding occ
occ-set g s v [] e = cc
occ-set g zero v (x ∷ xs) e = ground (arith, some_inj.0 e)
occ-set g (suc s) v (x ∷ xs) e = omega (arith, occ-set g s v xs e)

pub sum_occ-cons :
    (gs : List ℕ) (x : ℕ) (xs : List ℕ) → sum_occ gs (x ∷ xs) ≡ occ x gs + sum_occ gs xs
unfolding occ sum_occ
sum_occ-cons [] x xs = omega arith
sum_occ-cons (g ∷ gs) x xs = ground (arith, sum_occ-cons gs x xs)

pub sum_occ-set :
    (gs : List ℕ) (s v : ℕ) (xs : List ℕ) {old : ℕ}
    → get_elem? xs s ≡ some old
    → sum_occ gs (set xs s v) + occ old gs ≡ sum_occ gs xs + occ v gs
unfolding occ sum_occ
sum_occ-set [] s v xs e = omega arith
sum_occ-set (g ∷ gs) s v xs {old} e = ground (arith, occ-set g s v xs e, sum_occ-set gs s v xs e)

pub sum_occ_nil : (gs : List ℕ) → sum_occ gs [] ≡ 0
unfolding sum_occ occ
sum_occ_nil [] = refl
sum_occ_nil (g ∷ gs) = omega (arith, sum_occ_nil gs)

pub sum_occ-le : (gs xs : List ℕ) → ((x : ℕ) → occ x gs ≤ 1) → sum_occ gs xs ≤ length xs
unfolding occ sum_occ
sum_occ-le gs [] h = omega (arith, sum_occ_nil gs)
sum_occ-le gs (x ∷ xs) h = omega (arith, sum_occ-cons gs x xs, h x, sum_occ-le gs xs h)

-- Where every number is counted, every number is one of those counted.
pub sum_occ-All :
    (gs xs : List ℕ)
    → ((x : ℕ) → occ x gs ≤ 1)
    → length xs ≤ sum_occ gs xs
    → All (λ x. occ x gs ≡ 1) xs
sum_occ-All gs [] h e = tt
sum_occ-All gs (x ∷ xs) h e = (
  omega (arith, sum_occ-cons gs x xs, h x, sum_occ-le gs xs h, e),
  sum_occ-All gs xs h (omega (arith, sum_occ-cons gs x xs, h x, e)),
)

pub occ-insert_sorted : (g a : ℕ) (xs : List ℕ) → occ g (insert_sorted a xs) ≡ occ g (a ∷ xs)
unfolding occ insert_sorted
occ-insert_sorted g a [] = refl
occ-insert_sorted g a (b ∷ bs) = ground (arith, occ-insert_sorted g a bs)

pub occ-sort_ints : (g : ℕ) (xs : List ℕ) → occ g (sort_ints xs) ≡ occ g xs
unfolding occ sort_ints
occ-sort_ints g [] = refl
occ-sort_ints g (a ∷ xs) = omega (arith, occ-insert_sorted g a (sort_ints xs), occ-sort_ints g xs)

length-insert_sorted : (a : ℕ) (xs : List ℕ) → length (insert_sorted a xs) ≡ suc (length xs)
unfolding insert_sorted
length-insert_sorted a [] = refl
length-insert_sorted a (b ∷ bs) = ground (arith, length-insert_sorted a bs)

pub length-sort_ints : (xs : List ℕ) → length (sort_ints xs) ≡ length xs
unfolding sort_ints
length-sort_ints [] = refl
length-sort_ints (a ∷ xs) =
    omega (arith, length-insert_sorted a (sort_ints xs), length-sort_ints xs)

last_owned-past :
    (g n : ℕ) (xs : List ℕ) → get_elem? xs n ≡ none → last_owned g (suc n) xs ≡ last_owned g n xs
unfolding last_owned
last_owned-past g n xs e = simp (e, last_owned)

last_owned-at :
    (g n : ℕ) (xs : List ℕ) {x : ℕ}
    → get_elem? xs n ≡ some x
    → last_owned g (suc n) xs ≡ (if x == g then some n else last_owned g n xs)
unfolding last_owned
last_owned-at g n xs e = simp (e, last_owned)

pub last_owned-some :
    (g n : ℕ) (xs : List ℕ) {s : ℕ} → last_owned g n xs ≡ some s → get_elem? xs s ≡ some g
unfolding last_owned
last_owned-some g zero xs e = cc
last_owned-some g (suc n) xs {s} e = elim (Option-cases (get_elem? xs n)) [
  | inl past ↦ last_owned-some g n xs (sym (last_owned-past g n xs past) ∙ e)
  | inr (x, at) ↦ elim (Bool-cases (x == g)) [
    | inl own ↦
        let is = some_inj.0 (sym (last_owned-at g n xs at ∙ if_true _ _ own) ∙ e) in
        ap (get_elem? xs) (sym is) ∙ at ∙ ap some ((==_iff x g).0 own)
    | inr other ↦ last_owned-some g n xs (sym (last_owned-at g n xs at ∙ if_false _ _ other) ∙ e)
  ]
]

unowned :
    (g n : ℕ) (xs : List ℕ)
    → last_owned g n xs ≡ none
    → (i x : ℕ) → i < n
    → get_elem? xs i ≡ some x
    → (x == g) ≡ false
unowned g zero xs e i x h at = elim h [ ]
unowned g (suc n) xs e i x h at = elim (Option-cases (get_elem? xs n)) [
  | inl past ↦ elim (ℕ_discrete i n) [
    | yes is ↦ absurd (none-ne-some x (sym past ∙ ap (get_elem? xs) (sym is) ∙ at))
    | no ne ↦ unowned g n xs (sym (last_owned-past g n xs past) ∙ e) i x (omega (arith, h, ne)) at
  ]
  | inr (y, there) ↦ elim (Bool-cases (y == g)) [
    | inl own ↦ absurd (none-ne-some n (sym e ∙ last_owned-at g n xs there ∙ if_true _ _ own))
    | inr other ↦ elim (ℕ_discrete i n) [
      | yes is ↦
          let same = some_inj.0 (sym at ∙ ap (get_elem? xs) is ∙ there) in
          ap (λ z. z == g) same ∙ other
      | no ne ↦
          unowned g n xs (sym (last_owned-at g n xs there ∙ if_false _ _ other) ∙ e) i x
            (omega (arith, h, ne)) at
    ]
  ]
]

occ_zero :
    (g : ℕ) (xs : List ℕ) → ((i x : ℕ) → get_elem? xs i ≡ some x → (x == g) ≡ false) → occ g xs ≡ 0
unfolding occ
occ_zero g [] h = refl
occ_zero g (x ∷ xs) h = ground (arith, h 0 x refl, occ_zero g xs (λ i. h (suc i)))

pub last_owned-none :
    (g n : ℕ) (xs : List ℕ) → last_owned g n xs ≡ none → length xs ≤ n → occ g xs ≡ 0
last_owned-none g n xs e h =
    occ_zero g xs (λ i x at. unowned g n xs e i x (omega (arith, h, lt-get_elem? xs i at)) at)
