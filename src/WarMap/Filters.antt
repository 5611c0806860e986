-- ===== src/WarMap/Filters.antt =====
-- What the node filters show.
use mawster.Base.{
  ℕ, zero, suc, ◌≤◌, List, [], ◌∷◌, Option, none, some, Bool, true, false, not, leb, ◌==◌, nat_eq,
  any, all, map, ◌&&◌, Bool-cases, count, is_empty, ◌≡◌, refl, In, all-In, all-append, inl, inr,
  if◌then◌else◌, arith,
}
use mawster.WarMap.{sections, paths, all_nodes, one_to, visible_nodes, paths_available}

-- Whether a choice of the filters shows a node.
abbrev pub shows : Option (List ℕ) → ℕ → Bool
shows none n = false
shows (some nodes) n = any (λ m. m == n) nodes

-- A test that passes on all nodes passes on each node.
pub all-one_to : (p : ℕ → Bool) (k n : ℕ) → all p (one_to k) ≡ true → 1 ≤ n → n ≤ k → p n ≡ true
all-one_to p zero n h low high = absurd (omega arith)
all-one_to p (suc k) n h low high =
    let (before, last) = all-append p (one_to k) (suc k ∷ []) h in
    elim (Bool-cases (n == suc k)) [
      | inl here ↦ ground arith
      | inr earlier ↦ all-one_to p k n before low (ground arith)
    ]

both_equal : (a b c d : ℕ) → (a == b && c == d) ≡ true → (a ≡ b) × (c ≡ d)
both_equal a b c d h = ground arith

abbrev sections_of : ℕ → ℕ
sections_of n = count (λ s. shows (visible_nodes (some s) none) n) sections

abbrev paths_of : ℕ → ℕ
paths_of n = count (λ p. shows (visible_nodes none (some p)) n) paths

all_nodes-partitioned :
    all (λ n. sections_of n == 1 && paths_of n == (if leb n 36 then 1 else 0)) all_nodes ≡ true
unfolding visible_nodes
all_nodes-partitioned = refl

-- Each of the 50 nodes is shown by exactly one section, and by exactly one path if it is one of the
-- first 36, by none else.
pub visible_nodes-partition :
    (n : ℕ)
    → 1 ≤ n
    → n ≤ 50
    → (count (λ s. shows (visible_nodes (some s) none) n) sections ≡ 1)
      × (count (λ p. shows (visible_nodes none (some p)) n) paths ≡ (if leb n 36 then 1 else 0))
visible_nodes-partition n low high =
    both_equal (sections_of n) 1 (paths_of n) (if leb n 36 then 1 else 0) (
      all-one_to (λ n. sections_of n == 1 && paths_of n == (if leb n 36 then 1 else 0)) 50 n
        all_nodes-partitioned low high)

-- Whether a choice of the filters shows a node at all.
abbrev shows_any : Option (List ℕ) → Bool
shows_any none = false
shows_any (some nodes) = not (is_empty nodes)

abbrev pub agrees : Bool → Bool → Bool
agrees a b = if b then a else not a

pub agrees_eq : (a b : Bool) → agrees a b ≡ true → a ≡ b
agrees_eq a b h = ground arith

abbrev is_offered_right : Option ℕ → ℕ → Bool
is_offered_right section path =
    agrees (shows_any (visible_nodes section (some path))) (paths_available section)

sections-offered_right :
    all (λ s. all (λ p. is_offered_right s p) paths) (none ∷ map some sections) ≡ true
unfolding visible_nodes paths_available
sections-offered_right = refl

-- The path filter is offered exactly where every path has a node to show, and where it is not
-- offered no path has one.
paths_available-visible_nodes :
    (section : Option ℕ) (path : ℕ)
    → In section (none ∷ map some sections)
    → In path paths
    → shows_any (visible_nodes section (some path)) ≡ paths_available section
paths_available-visible_nodes section path is_section is_path =
    agrees_eq (shows_any (visible_nodes section (some path))) (paths_available section) (
      all-In (λ p. is_offered_right section p) path paths
        (all-In (λ s. all (λ p. is_offered_right s p) paths) section (none ∷ map some sections)
          sections-offered_right is_section)
        is_path)
