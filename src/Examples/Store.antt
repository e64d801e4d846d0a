-- ===== src/Examples/Store.antt =====
-- A key-value store in memory, as a list of writes, and the laws of the store for it.
use tokenfactory.Base.{
  ◌≡◌, ◌≢◌, ◌↔◌, refl, sym, ap, ◌∙◌, ◌⊎◌, inl, inr, Option, none, some, some-injective, List, [],
  ◌∷◌, ◌++◌, Elem, if◌then◌else◌, true, false, ℕ, Option-cases,
}
use tokenfactory.Base.Bytes.{Bytes, same, same_refl, same-cases, ne→same, eq→same}

unfoldable pub lookup : Bytes → List (Bytes × Bytes) → Option Bytes
lookup j [] = none
lookup j ((k, v) ∷ s) = if same k j then some v else lookup j s

-- What follows a prefix.
unfoldable pub strip : Bytes → Bytes → Option Bytes
strip [] k = some k
strip (a ∷ p) [] = none
strip (a ∷ p) (b ∷ k) = if same (a ∷ []) (b ∷ []) then strip p k else none

unfoldable pub delete : Bytes → List (Bytes × Bytes) → List (Bytes × Bytes)
delete r [] = []
delete r ((q, w) ∷ xs) = if same r q then delete r xs else (q, w) ∷ delete r xs

unfoldable pub entry : Option Bytes → Bytes → List (Bytes × Bytes) → List (Bytes × Bytes)
unfolding delete
entry none v xs = xs
entry (some r) v xs = (r, v) ∷ delete r xs

unfoldable pub iterate : Bytes → List (Bytes × Bytes) → List (Bytes × Bytes)
unfolding entry strip
iterate p [] = []
iterate p ((k, v) ∷ s) = entry (strip p k) v (iterate p s)

same_byte : (a : ℕ) → same (a ∷ []) (a ∷ []) ≡ true
same_byte a = same_refl (a ∷ [])

strip-append : (p k : Bytes) → strip p (p ++ k) ≡ some k
unfolding strip
strip-append [] k = refl
strip-append (a ∷ p) k = rw (same_byte a) (strip-append p k)

strip-eq-some : (p k : Bytes) {r : Bytes} → strip p k ≡ some r → k ≡ p ++ r
unfolding strip
strip-eq-some [] k {r} h = some-injective k r h
strip-eq-some (a ∷ p) [] h = cc
strip-eq-some (a ∷ p) (b ∷ k) {r} h = elim (same-cases (a ∷ []) (b ∷ [])) [
  | inl (e, f) ↦ let tail = strip-eq-some p k (rw f at h) in let head : a ≡ b = cc in cc
  | inr (_, f) ↦ let clash : none ≡ some r = rw f at h in cc
]

Elem-delete :
    (r k v : Bytes) (xs : List (Bytes × Bytes))
    → Elem (k, v) (delete r xs) ↔ ((r ≢ k) × Elem (k, v) xs)
unfolding delete
Elem-delete r k v [] = ((λ h. absurd h), (λ h. h.1))
Elem-delete r k v ((q, w) ∷ xs) =
    let (there, back) = Elem-delete r k v xs in
    elim (same-cases r q) [
      | inl (e, f) ↦ (
        (λ h. let (n, i) = there (rw f at h) in (n, inr i)),
        (λ u.
            let (n, h) = u in
            elim h [
              | inl p ↦ absurd (n (e ∙ sym (ap (λ (x : Bytes × Bytes). x.0) p)))
              | inr i ↦ rw f (back (n, i))
            ]),
      )
      | inr (n, f) ↦ ((λ h. out n there (rw f at h)), (λ u. let h = into back u in rw f h))
    ]
  where
    out :
        r ≢ q
        → (Elem (k, v) (delete r xs) → (r ≢ k) × Elem (k, v) xs)
        → (◌≡◌ {A = Bytes × Bytes} (k, v) (q, w)) ⊎ Elem (k, v) (delete r xs)
        → (r ≢ k) × ((◌≡◌ {A = Bytes × Bytes} (k, v) (q, w)) ⊎ Elem (k, v) xs)
    out n there (inl p) = ((λ c. n (c ∙ ap (λ (x : Bytes × Bytes). x.0) p)), inl p)
    out n there (inr i) = let (m, j) = there i in (m, inr j)

    into :
        ((r ≢ k) × Elem (k, v) xs → Elem (k, v) (delete r xs))
        → (r ≢ k) × ((◌≡◌ {A = Bytes × Bytes} (k, v) (q, w)) ⊎ Elem (k, v) xs)
        → (◌≡◌ {A = Bytes × Bytes} (k, v) (q, w)) ⊎ Elem (k, v) (delete r xs)
    into back (m, inl p) = inl p
    into back (m, inr i) = inr (back (m, i))

-- The iterator visits what stands under the prefix.
pub Elem-iterate :
    (p k v : Bytes) (s : List (Bytes × Bytes))
    → Elem (k, v) (iterate p s) ↔ (lookup (p ++ k) s ≡ some v)
unfolding iterate lookup entry
Elem-iterate p k v [] = ((λ h. absurd h), (λ h. let clash : none ≡ some v = h in cc))
Elem-iterate p k v ((j, w) ∷ s) = elim (Option-cases (strip p j)) [
  | inl e ↦
      let other : same j (p ++ k) ≡ false =
        ne→same j (p ++ k)
          (λ q. let clash : none ≡ some k = sym e ∙ ap (strip p) q ∙ strip-append p k in cc) in
      rw (e, other) (Elem-iterate p k v s)
  | inr (r, e) ↦
      let whole : j ≡ p ++ r = strip-eq-some p j e in
      let (there, back) = Elem-iterate p k v s in
      let (out, into) = Elem-delete r k v (iterate p s) in
      elim (same-cases r k) [
        | inl (q, _) ↦
            let hit : same j (p ++ k) ≡ true = eq→same j (p ++ k) (whole ∙ ap (λ x. p ++ x) q) in
            rw (e, hit)
              (
                (λ (h : ((k, v) ≡ (r, w)) ⊎ Elem (k, v) (delete r (iterate p s))). elim h [
                  | inl c ↦ ap some (sym (ap (λ (x : Bytes × Bytes). x.1) c))
                  | inr i ↦ absurd ((out i).0 q)
                ]),
                (λ (h : some w ≡ some v). inl (let c = some-injective w v h in cc)),
              )
        | inr (n, _) ↦
            let miss : same j (p ++ k) ≡ false = ne→same j (p ++ k) (λ c. n (
              some-injective r k
                (sym (strip-append p r) ∙ ap (strip p) (sym whole ∙ c) ∙ strip-append p k))) in
            rw (e, miss)
              (
                (λ (h : ((k, v) ≡ (r, w)) ⊎ Elem (k, v) (delete r (iterate p s))). elim h [
                  | inl c ↦ absurd (n (sym (ap (λ (x : Bytes × Bytes). x.0) c)))
                  | inr i ↦ there (out i).1
                ]),
                (λ h. inr (into (n, back h))),
              )
      ]
]
