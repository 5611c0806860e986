-- ===== src/Import/File/Sorting.antt =====
-- The order of the preview: new rows, changed rows, the rest; within each the highest rarity first.
use mawster.Base.{
  List, [], ◌∷◌, Bool, true, false, ◌≡◌, refl, arith, All, count, insert_by, sort_by, Bool-cases,
  inl, inr, All-insert_by,
}
use mawster.Import.Preview.{PreviewRow}
use mawster.Import.File.{comes_before}

-- No later row comes strictly before an earlier one.
abbrev IsOrdered : List PreviewRow → Type 0
IsOrdered [] = Unit
IsOrdered (a ∷ rows) = All (λ b. comes_before b a ≡ false) rows × IsOrdered rows

comes_before_asym : (a b : PreviewRow) → comes_before a b ≡ true → comes_before b a ≡ false
unfolding comes_before
comes_before_asym a b h = ground arith

comes_before_negtrans :
    (a b c : PreviewRow)
    → comes_before b a ≡ false
    → comes_before c b ≡ false
    → comes_before c a ≡ false
unfolding comes_before
comes_before_negtrans a b c h k = ground arith

All-negtrans :
    (a b : PreviewRow) (rows : List PreviewRow)
    → comes_before b a ≡ false
    → All (λ c. comes_before c b ≡ false) rows
    → All (λ c. comes_before c a ≡ false) rows
All-negtrans a b [] h k = tt
All-negtrans a b (c ∷ rows) h (p, k) = (comes_before_negtrans a b c h p, All-negtrans a b rows h k)

insert_by-IsOrdered :
    (x : PreviewRow) (rows : List PreviewRow)
    → IsOrdered rows
    → IsOrdered (insert_by comes_before x rows)
unfolding insert_by
insert_by-IsOrdered x [] h = (tt, tt)
insert_by-IsOrdered x (y ∷ ys) (p, h) = elim (Bool-cases (comes_before y x)) [
  | inl later ↦ rw later (
    All-insert_by (λ b. comes_before b y ≡ false) comes_before x ys (comes_before_asym y x later) p,
    insert_by-IsOrdered x ys h,
  )
  | inr here ↦ rw here ((here, All-negtrans x y ys here p), (p, h))
]

sort_by-IsOrdered : (rows : List PreviewRow) → IsOrdered (sort_by comes_before rows)
unfolding sort_by
sort_by-IsOrdered [] = tt
sort_by-IsOrdered (x ∷ rows) =
    insert_by-IsOrdered x (sort_by comes_before rows) (sort_by-IsOrdered rows)

count-insert_by :
    (p : PreviewRow → Bool) (x : PreviewRow) (rows : List PreviewRow)
    → count p (insert_by comes_before x rows) ≡ count p (x ∷ rows)
unfolding insert_by
count-insert_by p x [] = refl
count-insert_by p x (y ∷ ys) = ground (arith, count-insert_by p x ys)

count-sort_by :
    (p : PreviewRow → Bool) (rows : List PreviewRow)
    → count p (sort_by comes_before rows) ≡ count p rows
unfolding sort_by
count-sort_by p [] = refl
count-sort_by p (x ∷ rows) =
    ground (arith, count-insert_by p x (sort_by comes_before rows), count-sort_by p rows)

-- The preview is sorted by the comparator, which is a consistent one: no row stands behind a row
-- that it comes before, and every test counts as many rows before and after sorting.
sort_by-comes_before :
    (rows : List PreviewRow) (p : PreviewRow → Bool)
    → IsOrdered (sort_by comes_before rows) × (count p (sort_by comes_before rows) ≡ count p rows)
sort_by-comes_before rows p = (sort_by-IsOrdered rows, count-sort_by p rows)
