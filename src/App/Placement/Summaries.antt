-- ===== src/App/Placement/Summaries.antt =====
-- src/application/ltm_placement.rs: the rolling summary of a node, a count and the titles of its
-- children.
use neurolithe.Base.{
  ℕ, zero, suc, ◌+◌, ◌-◌, ◌/◌, ◌%◌, ◌≤◌, ◌≡◌, refl, ◌∙◌, inl, inr, false, not, ◌&&◌, none, some,
  List, [], ◌∷◌, ◌++◌, map, arith, ltb, leb, if◌then◌else◌, leb→le, Bool-cases, ◌==◌, nat_key,
  text_key, length, is_empty, take, filter, length-append, length-take,
}
use neurolithe.Base.Text.{Text, text, Unicode, trim, join}
use neurolithe.Domain.Ltm.{TreeNode}
use neurolithe.Store.Ltm.Rows.{Store}
use neurolithe.Store.Ltm.Queries.{get_node, get_children}
use neurolithe.Store.Ltm.Writes.{update_summary}

-- `DEFAULT_MAX_SUMMARY_LEN`
abbrev default_max_summary_len : ℕ
default_max_summary_len = 600

abbrev ellipsis : ℕ
ellipsis = 8230

-- Decimal digits; a number has fewer digits than itself plus one.
unfoldable pub digits : ℕ → ℕ → Text
digits zero n = []
digits (suc fuel) n =
    let rest = digits fuel (n / 10) in
    if ltb n 10 then (48 + n) ∷ [] else rest ++ ((48 + n % 10) ∷ [])

abbrev decimal_text : ℕ → Text
decimal_text n = digits (suc n) n

-- `condense`
unfoldable pub condense : Text → ℕ → Text
condense t max_len = if leb (length t) max_len then t else take (max_len - 1) t ++ (ellipsis ∷ [])

-- `str::lines().next().unwrap_or("")`: up to the first line feed, with a carriage return before it.
unfoldable pub first_line : Text → Text
first_line [] = []
first_line (c ∷ []) = if c == 10 then [] else c ∷ []
first_line (c ∷ d ∷ cs) =
    let rest = first_line (d ∷ cs) in
    if c == 10 then [] else if (c == 13) && (d == 10) then [] else c ∷ rest

module _ (u : Unicode) where
  unfoldable pub child_label : TreeNode → Text
  child_label n =
      let name = trim u.is_whitespace n.name in
      condense (if is_empty name then trim u.is_whitespace (first_line n.summary) else name) 60

  unfoldable pub labels : List TreeNode → List Text
  labels children = filter (λ l. not (is_empty l)) (map child_label children)

  unfoldable pub collection_summary : List TreeNode → ℕ → Text
  collection_summary children max_len =
      if is_empty children
      then []
      else condense
          (decimal_text (length children)
            ++ (text " "
                ++ ((if length children == 1 then text "item" else text "items")
                    ++ (text ": " ++ join (text "; ") (labels children)))))
          max_len

  -- `recompute_summary`: the row is written only if its summary changes.
  unfoldable pub recompute_summary : {F E : Type 0} → ℕ → ℕ → Store F E → Store F E
  recompute_summary max_len id s =
      let new = collection_summary (get_children id s) max_len in
      elim (get_node id s) [
        | none ↦ s
        | some n ↦ if n.summary == new then s else update_summary id new s
      ]

-- A condensed text fits; a text that fits is kept.
condense-length :
    (t : Text) (n : ℕ) → 1 ≤ n → (length (condense t n) ≤ n) × (length t ≤ n → condense t n ≡ t)
unfolding condense
condense-length t n h = elim (Bool-cases (leb (length t) n)) [
  | inl fits ↦ rw (fits, condense) (omega (arith, leb→le (length t) n fits), λ k. refl)
  | inr long ↦
      rw (long, condense)
        (
          omega (
            arith,
            length-append {0} (take (n - 1) t) (ellipsis ∷ []),
            length-take {0} (n - 1) t,
          ),
          λ k. absurd (ground arith),
        )
]

is_empty-append : (s t : Text) → is_empty (s ++ t) ≡ (is_empty s && is_empty t)
is_empty-append [] t = refl
is_empty-append (c ∷ s) t = refl

long_nonempty :
    (t : Text) (n : ℕ)
    → 1 ≤ n
    → leb (length t) n ≡ false
    → (is_empty (take (n - 1) t) && false) ≡ is_empty t
long_nonempty [] n h k = ground arith
long_nonempty (c ∷ t) n h k = ground arith

condense-empty : (t : Text) (n : ℕ) → 1 ≤ n → is_empty (condense t n) ≡ is_empty t
unfolding condense
condense-empty t n h = elim (Bool-cases (leb (length t) n)) [
  | inl fits ↦ rw (fits, condense)
  | inr long ↦
      rw (long, condense)
        (is_empty-append (take (n - 1) t) (ellipsis ∷ []) ∙ long_nonempty t n h long)
]

decimal_text-nonempty : (n : ℕ) → is_empty (decimal_text n) ≡ false
unfolding digits
decimal_text-nonempty n = elim (Bool-cases (ltb n 10)) [
  | inl one ↦ rw one
  | inr more ↦ rw more (is_empty-append (digits n (n / 10)) ((48 + n % 10) ∷ []) ∙ ground arith)
]

module _ (u : Unicode) where
  -- A collection's summary never exceeds the bound, and is empty exactly for an empty
  -- collection, for every bound that leaves room for a character.
  pub collection_summary-length :
      (children : List TreeNode) (max_len : ℕ)
      → 1 ≤ max_len
      → (length (collection_summary u children max_len) ≤ max_len)
        × (is_empty (collection_summary u children max_len) ≡ is_empty children)
  unfolding collection_summary
  collection_summary-length [] max_len h = (omega arith, refl)
  collection_summary-length (c ∷ cs) max_len h =
      let count = decimal_text (length (c ∷ cs)) in
      let rest =
        text " "
        ++ ((if length (c ∷ cs) == 1 then text "item" else text "items")
            ++ (text ": " ++ join (text "; ") (labels u (c ∷ cs)))) in
      (
        (condense-length (count ++ rest) max_len h).0,
        condense-empty (count ++ rest) max_len h
            ∙ (is_empty-append count rest ∙ rw (decimal_text-nonempty (length (c ∷ cs)))),
      )
