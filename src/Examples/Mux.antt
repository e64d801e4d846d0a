-- ===== src/Examples/Mux.antt =====
-- A mux that runs the operations of a pattern over the segments of a path.
use tokenfactory.Base.{
  ℕ, zero, suc, ◌≡◌, refl, sym, ap, ◌∙◌, subst, List, [], ◌∷◌, false, ◌==◌, All, Option, none, some,
  if◌then◌else◌, Bool-cases, inl, inr, some-injective, Option-cases,
}
use tokenfactory.Base.Bytes.{Bytes, contains, same, split}
use tokenfactory.Base.Split.{split-contains}
use tokenfactory.Types.Denoms.{slash}
use tokenfactory.Gateway.Runtime.{path_param}
use tokenfactory.Gateway.Laws.{Mux, MuxLaws}

unfoldable pub pool_at : List Bytes → ℕ → Bytes
pool_at [] i = []
pool_at (p ∷ ps) zero = p
pool_at (p ∷ ps) (suc i) = pool_at ps i

-- The segment that was pushed last, the segments that are left, and what was captured.
pub record Progress : Type 0 where
  pub last : Bytes
  pub segments : List Bytes
  pub captured : List (Bytes × Bytes)

-- Concatenation of one, which keeps it, and capture; they take no segment.
unfoldable pub step_at_end : ℕ → Progress → Bytes → Option Progress
step_at_end op r name =
    if op == 4
    then some r
    else if op == 5
    then some (record r { captured = (name, r.last) ∷ r.captured })
    else none

abbrev pub and_then : {A B : Type 0} → Option A → (A → Option B) → Option B
and_then none k = none
and_then (some a) k = k a

-- Literal, push, concatenation of one, and capture.
unfoldable pub step : List Bytes → ℕ → ℕ → Progress → Option Progress
unfolding pool_at step_at_end
step pool op n r = elim r.segments [
  | [] ↦ step_at_end op r (pool_at pool n)
  | s ∷ rest ↦
      if op == 2
      then (if same s (pool_at pool n) then some (record r { segments = rest }) else none)
      else if op == 1
      then some (record r { last = s; segments = rest })
      else step_at_end op r (pool_at pool n)
]

unfoldable pub run_ops : List Bytes → List ℕ → Progress → Option (List (Bytes × Bytes))
unfolding step
run_ops pool [] r = elim r.segments [ [] ↦ some r.captured | s ∷ rest ↦ none ]
run_ops pool (op ∷ []) r = none
run_ops pool (op ∷ (n ∷ rest)) r = and_then (step pool op n r) (run_ops pool rest)

-- The first segment of a path is the empty one in front of its first slash.
unfoldable pub behind_first : List Bytes → List Bytes
behind_first [] = []
behind_first (s ∷ segments) = segments

abbrev pub routes : Mux
routes = record {
  match_path = λ p url.
      run_ops p.pool p.ops
        (record { last = []; segments = behind_first (split slash url); captured = [] });
}

abbrev HasNoSlash : Bytes → Type 0
HasNoSlash s = contains slash s ≡ false

record IsPlain (r : Progress) : Type 0 where
  last : HasNoSlash r.last
  segments : All HasNoSlash r.segments
  captured : All (λ (c : Bytes × Bytes). HasNoSlash c.1) r.captured

step_at_end-IsPlain :
    (op : ℕ) (r : Progress) (name : Bytes) {r' : Progress}
    → IsPlain r
    → step_at_end op r name ≡ some r'
    → IsPlain r'
unfolding step_at_end
step_at_end-IsPlain op r name {r'} w h = elim (Bool-cases (op == 4)) [
  | inl e ↦ subst IsPlain (some-injective _ _ (rw e at h)) w
  | inr e ↦ elim (Bool-cases (op == 5)) [
    | inl e' ↦
        subst IsPlain (some-injective _ _ (rw (e, e') at h))
          (record { last = w.last; segments = w.segments; captured = (w.last, w.captured) })
    | inr e' ↦ let clash : none ≡ some r' = rw (e, e') at h in cc
  ]
]

step-IsPlain :
    (pool : List Bytes) (op n : ℕ) (last : Bytes) (segments : List Bytes)
    (captured : List (Bytes × Bytes)) {r' : Progress}
    → IsPlain (record { last = last; segments = segments; captured = captured })
    → step pool op n (record { last = last; segments = segments; captured = captured }) ≡ some r'
    → IsPlain r'
unfolding step
step-IsPlain pool op n last [] captured w h = step_at_end-IsPlain op _ (pool_at pool n) w h
step-IsPlain pool op n last (s ∷ rest) captured {r'} w h = elim (Bool-cases (op == 2)) [
  | inl e ↦ elim (Bool-cases (same s (pool_at pool n))) [
    | inl e' ↦
        subst IsPlain (some-injective _ _ (rw (e, e') at h))
          (record { last = w.last; segments = w.segments.1; captured = w.captured })
    | inr e' ↦ let clash : none ≡ some r' = rw (e, e') at h in cc
  ]
  | inr e ↦ elim (Bool-cases (op == 1)) [
    | inl e' ↦
        subst IsPlain (some-injective _ _ (rw (e, e') at h))
          (record { last = w.segments.0; segments = w.segments.1; captured = w.captured })
    | inr e' ↦ step_at_end-IsPlain op _ (pool_at pool n) w (rw (e, e') at h)
  ]
]

run_ops_plain :
    (pool : List Bytes) (ops : List ℕ) (r : Progress) {params : List (Bytes × Bytes)}
    → IsPlain r
    → run_ops pool ops r ≡ some params
    → All (λ (c : Bytes × Bytes). HasNoSlash c.1) params
unfolding run_ops
run_ops_plain pool [] r {params} w h = ended r.segments h
  where
    ended :
        (left : List Bytes)
        → (elim left as (λ _. Option (List (Bytes × Bytes))) [
          | [] ↦ some r.captured
          | s ∷ rest ↦ none
        ])
          ≡ some params
        → All (λ (c : Bytes × Bytes). HasNoSlash c.1) params
    ended [] e =
        subst (All (λ (c : Bytes × Bytes). HasNoSlash c.1)) (some-injective _ _ e) w.captured
    ended (s ∷ rest) e = cc
run_ops_plain pool (op ∷ []) r w h = cc
run_ops_plain pool (op ∷ (n ∷ rest)) r {params} w h = elim (Option-cases (step pool op n r)) [
  | inl e ↦
      let clash : none ≡ some params = ap (λ o. and_then o (run_ops pool rest)) (sym e) ∙ h in cc
  | inr (r', e) ↦
      run_ops_plain pool rest r' (step-IsPlain pool op n r.last r.segments r.captured w e)
        (ap (λ o. and_then o (run_ops pool rest)) (sym e) ∙ h)
]

path_param_plain :
    (name : Bytes) (params : List (Bytes × Bytes)) {v : Bytes}
    → All (λ (c : Bytes × Bytes). HasNoSlash c.1) params
    → path_param name params ≡ some v
    → HasNoSlash v
unfolding path_param
path_param_plain name [] w h = cc
path_param_plain name ((n, x) ∷ rest) {v} (p, ps) h = elim (Bool-cases (same name n)) [
  | inl e ↦ subst HasNoSlash (some-injective x v (rw e at h)) p
  | inr e ↦ path_param_plain name rest ps (rw e at h)
]

behind_first_plain : (xs : List Bytes) → All HasNoSlash xs → All HasNoSlash (behind_first xs)
unfolding behind_first
behind_first_plain [] h = h
behind_first_plain (x ∷ xs) h = h.1

pub routes-MuxLaws : MuxLaws routes
unfolding contains
routes-MuxLaws = record {
  captured = λ p url single h name k.
      path_param_plain name _
        (run_ops_plain p.pool p.ops _
          (record {
            last = refl;
            segments = behind_first_plain _ (split-contains slash url);
            captured = tt;
          })
          h)
        k;
}
