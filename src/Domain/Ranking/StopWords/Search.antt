-- ===== src/Domain/Ranking/StopWords/Search.antt =====
-- The binary search finds exactly the members of a sorted list, and the stop-words are sorted.
use neurolithe.Base.{
  ℕ, zero, suc, ◌/◌, ◌≤◌, ◌<◌, Ordering, ◌≡◌, refl, sym, ap, ◌⊎◌, inl, inr, Bool, true, false, ◌&&◌,
  List, [], ◌∷◌, ◌++◌, arith, nat_key, text_key, list_eqb_iff, length, take, drop, All,
  length-append, length-take, length-drop, take-append-drop, All-mono, contains, contains-false,
  All-append_inv, contains-append,
}
use mathlib.Core.Path.{subst}
use neurolithe.Base.Text.{Text, Unicode}
use neurolithe.Base.Text.Order.{text_cmp, text_cmp_refl, eq_of_text_cmp, lt_of_gt, text_cmp_trans}
use neurolithe.Domain.Ranking.StopWords.{stop_words, search, is_stop_word}

abbrev IsBelow : Text → List Text → Type 0
IsBelow x = All (λ y. text_cmp x y ≡ Ordering.lt)

abbrev IsSorted : List Text → Type 0
IsSorted [] = Unit
IsSorted (x ∷ xs) = IsBelow x xs × IsSorted xs

-- The source's own test, `windows(2).all(|w| w[0] < w[1])`.
abbrev is_ascending : List Text → Bool
is_ascending [] = true
is_ascending (x ∷ []) = true
is_ascending (x ∷ y ∷ ws) =
    (elim (text_cmp x y) [ Ordering.lt ↦ true | _ ↦ false ]) && is_ascending (y ∷ ws)

stop_words_ascend : is_ascending stop_words ≡ true
unfolding text_cmp
stop_words_ascend = refl

IsBelow-trans :
    (x y : Text) (ws : List Text) → text_cmp x y ≡ Ordering.lt → IsBelow y ws → IsBelow x ws
IsBelow-trans x y ws h = All-mono _ _ (λ z k. text_cmp_trans x y z h k) ws

ascending-IsSorted : (ws : List Text) → is_ascending ws ≡ true → IsSorted ws
ascending-IsSorted [] h = tt
ascending-IsSorted (x ∷ []) h = (tt, tt)
ascending-IsSorted (x ∷ y ∷ ws) h =
    let below : text_cmp x y ≡ Ordering.lt = ground arith in
    let rest = ascending-IsSorted (y ∷ ws) (ground arith) in
    ((below, IsBelow-trans x y ws below rest.0), rest)

-- A sorted list in three parts.
IsSorted-split :
    (xs : List Text) (mid : Text) (ys : List Text)
    → IsSorted (xs ++ (mid ∷ ys))
    → IsSorted xs × All (λ x. text_cmp x mid ≡ Ordering.lt) xs × IsBelow mid ys × IsSorted ys
IsSorted-split [] mid ys h = (tt, tt, h.0, h.1)
IsSorted-split (x ∷ xs) mid ys h =
    let (sorted, below, above, rest) = IsSorted-split xs mid ys h.1 in
    let (near, far) = All-append_inv _ xs (mid ∷ ys) h.0 in
    ((near, sorted), (far.0, below), above, rest)

ne_of_lt : (x t : Text) → text_cmp x t ≡ Ordering.lt → ¬ (x ≡ t)
ne_of_lt x t h = λ e. cc (text_cmp_refl t)

contains-above :
    (t mid : Text) (ys : List Text)
    → text_cmp mid t ≡ Ordering.gt
    → IsBelow mid ys
    → contains ys t ≡ false
contains-above t mid ys h b = contains-false ys t (
    All-mono _ _ (λ y k e. ne_of_lt t y (text_cmp_trans t mid y (lt_of_gt mid t h) k) (sym e)) ys b)

contains-below :
    (t mid : Text) (xs : List Text)
    → text_cmp mid t ≡ Ordering.lt
    → All (λ x. text_cmp x mid ≡ Ordering.lt) xs
    → contains xs t ≡ false
contains-below t mid xs h b =
    contains-false xs t (All-mono _ _ (λ x k. ne_of_lt x t (text_cmp_trans x mid t k h)) xs b)

-- One comparison with the middle element decides which part may hold the text.
contains-split :
    (xs : List Text) (mid : Text) (ys : List Text) (t : Text)
    → IsSorted (xs ++ (mid ∷ ys))
    → contains (xs ++ (mid ∷ ys)) t ≡ elim (text_cmp mid t) [
      | Ordering.eq ↦ true
      | Ordering.lt ↦ contains ys t
      | Ordering.gt ↦ contains xs t
    ]
contains-split xs mid ys t h =
    let (sorted, below, above, rest) = IsSorted-split xs mid ys h in
    ground (
      arith,
      contains-append xs (mid ∷ ys) t,
      contains-below t mid xs,
      contains-above t mid ys,
      list_eqb_iff mid t,
      text_cmp_refl t,
      eq_of_text_cmp mid t,
      below,
      above,
    )

List-cases : (ws : List Text) → (ws ≡ []) ⊎ ((w : Text) × (vs : List Text) × (ws ≡ w ∷ vs))
List-cases [] = inl refl
List-cases (w ∷ vs) = inr (w, vs, refl)

nil_of_length : (ws : List Text) → length ws ≤ 0 → ws ≡ []
nil_of_length [] h = refl
nil_of_length (w ∷ ws) h = absurd (omega arith)

-- On enough fuel the search of a sorted slice answers as a scan of it does.
search-contains :
    (fuel : ℕ) (ws : List Text) (t : Text)
    → length ws < fuel
    → IsSorted ws
    → search fuel ws t ≡ contains ws t
unfolding search
search-contains zero ws t enough sorted = absurd (omega arith)
search-contains (suc fuel) ws t enough sorted =
    let half = length ws / 2 in
    let low = take half ws in
    let sizes = length-take {0} half ws in
    elim (List-cases (drop half ws)) [
      | inl none_left ↦
          let short : length ws ≤ 0 =
            omega (
              arith,
              length-drop {0} half ws,
              ap {B = ℕ} (λ (l : List Text). length l) none_left,
            ) in
          rw (nil_of_length ws short)
      | inr (mid, above, e) ↦
          let parts : ws ≡ low ++ (mid ∷ above) = rw e at (sym (take-append-drop half ws)) in
          let sorted' : IsSorted (low ++ (mid ∷ above)) = subst IsSorted parts sorted in
          let (sorted_low, _, _, sorted_above) = IsSorted-split low mid above sorted' in
          let whole = length-append {0} low (mid ∷ above) in
          let same = ap {B = ℕ} (λ (l : List Text). length l) parts in
          let up = search-contains fuel above t (omega (arith, whole, same)) sorted_above in
          let down = search-contains fuel low t (omega (arith, whole, same)) sorted_low in
          ground (
            arith,
            e,
            up,
            down,
            contains-split low mid above t sorted',
            ap {B = Bool} (λ (l : List Text). contains l t) parts,
          )
    ]

-- The stop-word test finds a term exactly if its lower-case form is one of the listed words.
pub is_stop_word-contains :
    (u : Unicode) (term : Text) → is_stop_word u term ≡ contains stop_words (u.to_lowercase term)
unfolding is_stop_word
is_stop_word-contains u term =
    let t = u.to_lowercase term in
    search-contains (suc (length stop_words)) stop_words t (omega arith)
      (ascending-IsSorted stop_words stop_words_ascend)
