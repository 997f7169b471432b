-- ===== src/Table/Unordered.antt =====
-- What does not depend on the order in which a table keeps its entries: two tables that answer every
-- lookup alike go on to do so, and entries with different keys can be inserted in any order.
use quant_core_engine.Prelude.{
  ◌≡◌, ◌≢◌, refl, sym, ap, ◌∙◌, none, some, List, [], ◌∷◌, arith, Eq, ◌==◌, if◌then◌else◌,
}
use mathlib.Core.HLevel.{¬_prop}
use mathlib.Core.List.{Pairwise, Permᴰ, mem-cons_self}
use mathlib.Core.List.Permᴰ
use quant_core_engine.Table.{find, insert, erase, find-insert, find-erase}

module _ {K V : Type 0} ⦃e : Eq K⦄ where
  abbrev pub SameFinds : List (K × V) → List (K × V) → Type 0
  SameFinds m n = (k : K) → find k m ≡ find k n

  pub insert-SameFinds :
      (k : K) (v : V) (m n : List (K × V)) → SameFinds m n → SameFinds (insert k v m) (insert k v n)
  insert-SameFinds k v m n s j =
      rw (find-insert k j v m, find-insert k j v n) (ap (λ o. if k == j then some v else o) (s j))

  pub erase-SameFinds :
      (k : K) (m n : List (K × V)) → SameFinds m n → SameFinds (erase k m) (erase k n)
  erase-SameFinds k m n s j =
      rw (find-erase k j m, find-erase k j n) (ap (λ o. if k == j then none else o) (s j))

  insert-insert :
      (k j : K) (v w : V) (m n : List (K × V))
      → k ≢ j
      → SameFinds m n
      → SameFinds (insert j w (insert k v m)) (insert k v (insert j w n))
  insert-insert k j v w m n k≢j s i = ground (
    arith,
    find-insert j i w (insert k v m),
    find-insert k i v m,
    find-insert k i v (insert j w n),
    find-insert j i w n,
    e.beq_iff k i,
    e.beq_iff j i,
    s i,
  )

  module _ (key : V → K) where
    unfoldable pub insert_all : List V → List (K × V) → List (K × V)
    insert_all [] m = m
    insert_all (v ∷ vs) m = insert_all vs (insert (key v) v m)

    abbrev pub AreDistinct : List V → Type 0
    AreDistinct = Pairwise (λ v w. key v ≢ key w)

    insert_all-SameFinds :
        (vs : List V) (m n : List (K × V))
        → SameFinds m n
        → SameFinds (insert_all vs m) (insert_all vs n)
    unfolding insert_all
    insert_all-SameFinds [] m n s = s
    insert_all-SameFinds (v ∷ vs) m n s =
        insert_all-SameFinds vs (insert (key v) v m) (insert (key v) v n)
          (insert-SameFinds (key v) v m n s)

    AreDistinct-perm : {vs ws : List V} → Permᴰ vs ws → AreDistinct vs → AreDistinct ws
    AreDistinct-perm = Permᴰ.pairwise (λ v w. ¬_prop) (λ v w ne eq. ne (sym eq))

    -- Values with different keys can be inserted in any order.
    pub insert_all-perm :
        {vs ws : List V} (m n : List (K × V))
        → Permᴰ vs ws
        → AreDistinct vs
        → SameFinds m n
        → SameFinds (insert_all vs m) (insert_all ws n)
    unfolding insert_all
    insert_all-perm m n Permᴰ.nil h s k = s k
    insert_all-perm m n (Permᴰ.cons {a = v} {b = w} v≡w p) (Pairwise.cons h t) s k =
        insert_all-perm (insert (key v) v m) (insert (key w) w n) p t
          (λ j. insert-SameFinds (key v) v m n s j ∙ ap (λ x. find j (insert (key x) x n)) v≡w) k
    insert_all-perm m n (Permᴰ.swap {a = v} {b = w} {b' = v'} {l = vs} v≡v' w≡w')
          (Pairwise.cons h t) s k =
        insert_all-SameFinds vs _ _
          (λ j.
            insert-insert (key v) (key w) v w m n (h w mem-cons_self) s j
            ∙ ap (λ x. find j (insert (key x) x (insert (key w) w n))) v≡v'
            ∙ ap (λ y. find j (insert (key v') v' (insert (key y) y n))) w≡w')
          k
    insert_all-perm m n (Permᴰ.trans p q) h s k =
        insert_all-perm m n p h s k ∙ insert_all-perm n n q (AreDistinct-perm p h) (λ k. refl) k
