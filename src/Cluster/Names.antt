-- ===== src/Cluster/Names.antt =====
-- api/v1/safeevict_types.go: the name of the temporary pool.
use Prim.Native.String.{[], ◌∷◌}
use Prim.Native.String.append
use node_updater.Base.{
  String, ◌<>◌, ◌≡◌, refl, ℕ, zero, suc, ◌+◌, length_text, take_text, arith, ◌≤◌, ap,
}
use node_updater.Cluster.{get_temporary_nodepool_name, SafeEvict}

length-take : (n : ℕ) (s : String) → length_text (take_text n s) ≤ n
length-take n [] = omega arith
length-take zero (c ∷ s) = omega arith
length-take (suc n) (c ∷ s) = let ih = length-take n s in omega arith

-- Taking as much as there is takes all.
take_all : (n : ℕ) (s : String) → length_text s ≤ n → take_text n s ≡ s
take_all n [] h = refl
take_all zero (c ∷ s) h = absurd (omega arith)
take_all (suc n) (c ∷ s) h = ap (λ t. c ∷ t) (take_all n s (omega arith))

length-append : (s t : String) → length_text (s <> t) ≡ length_text s + length_text t
length-append [] t = rw append.nil (omega arith)
length-append (c ∷ s) t = let ih = length-append s t in rw append.cons (omega arith)

cut :
    (se : SafeEvict)
    → get_temporary_nodepool_name se ≡ "tmp" <> take_text 9 se.spec.base_for_backup_pool
unfolding get_temporary_nodepool_name
cut se = let all = take_all 9 se.spec.base_for_backup_pool in ground (arith, all)

-- The name of the temporary pool is "tmp" and the first nine bytes of the base pool's name, or all
-- of a shorter one, and so it keeps to the twelve bytes that Azure allows.
pub get_temporary_nodepool_name_lem :
    (se : SafeEvict)
    → (get_temporary_nodepool_name se ≡ "tmp" <> take_text 9 se.spec.base_for_backup_pool)
      × (length_text (get_temporary_nodepool_name se) ≤ 12)
get_temporary_nodepool_name_lem se =
    let base = se.spec.base_for_backup_pool in
    let short = length-take 9 base in
    let long = length-append "tmp" (take_text 9 base) in (cut se, rw (cut se) (omega arith))
