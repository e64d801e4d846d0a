-- ===== src/Types/Keys/Separation.antt =====
-- The keys of the module's store do not collide.
use mathlib.Core.List.{append_assoc, append_cancel_left, append_cancel_right}
use tokenfactory.Base.{ℕ, ◌≡◌, ◌≢◌, refl, ap, sym, ◌∙◌, false, [], ◌∷◌, ◌++◌, arith}
use tokenfactory.Base.Bytes.{Bytes, contains, split, join}
use tokenfactory.Base.Split.{split-append, join-split}
use tokenfactory.Types.Keys.{
  denom_prefix_store, creator_prefix, creators_prefix, authority_key, denom_authority_metadata_key,
  creator_prefix_key, denoms_prefix_key,
}

-- "|"
abbrev pub bar : ℕ
bar = b'|'

-- The key of a denom in its creator's part of the store.
creator_key : (c d : Bytes) → creator_prefix c ++ d ≡ creator_prefix_key ++ (bar ∷ (c ++ (bar ∷ d)))
unfolding creator_prefix
creator_key c d = ap (λ t. creator_prefix_key ++ (bar ∷ t)) (append_assoc c (bar ∷ []) d)

-- The same key, below the prefix of all creators.
pub creators_prefix-creator :
    (c d : Bytes) → creators_prefix ++ (c ++ (bar ∷ d)) ≡ creator_prefix c ++ d
unfolding creators_prefix
creators_prefix-creator c d = sym (creator_key c d)

split-creator_key :
    (c d : Bytes)
    → contains bar c ≡ false
    → split bar (creator_prefix c ++ d) ≡ creator_prefix_key ∷ (c ∷ split bar d)
split-creator_key c d h =
    ap (split bar) (creator_key c d)
    ∙ split-append bar creator_prefix_key (c ++ (bar ∷ d)) (unfold contains in refl)
    ∙ ap (λ t. creator_prefix_key ∷ t) (split-append bar c d h)

-- The entries of two creators without a bar stand under one key only if creator and denom agree.
pub creator_key-injective :
    (c d c' d' : Bytes)
    → contains bar c ≡ false
    → contains bar c' ≡ false
    → creator_prefix c ++ d ≡ creator_prefix c' ++ d'
    → (c ≡ c') × (d ≡ d')
creator_key-injective c d c' d' h h' e =
    let parts : creator_prefix_key ∷ (c ∷ split bar d) ≡ creator_prefix_key ∷ (c' ∷ split bar d') =
      sym (split-creator_key c d h) ∙ ap (split bar) e ∙ split-creator_key c' d' h' in
    let tails : split bar d ≡ split bar d' = cc in
    (cc, sym (join-split bar d) ∙ ap (join (bar ∷ [])) tails ∙ join-split bar d')

abbrev first : Bytes → ℕ
first [] = 0
first (b ∷ bs) = b

-- No authority metadata stands under a key of the creators' index, whatever the texts.
pub authority_key-ne-creator_key : (d c e : Bytes) → authority_key d ≢ creator_prefix c ++ e
unfolding authority_key denom_prefix_store creator_prefix
authority_key-ne-creator_key d c e h = omega (arith, ap first h)

-- Nor under any key below the prefix of all creators.
pub authority_key-ne-creators_key : (d k : Bytes) → authority_key d ≢ creators_prefix ++ k
unfolding authority_key denom_prefix_store creators_prefix
authority_key-ne-creators_key d k h = omega (arith, ap first h)

-- The authority metadata of two denoms stands under one key only if the denoms are the same.
pub authority_key-injective : (d d' : Bytes) → authority_key d ≡ authority_key d' → d ≡ d'
unfolding authority_key denom_prefix_store
authority_key-injective d d' h = append_cancel_right d d' (bar ∷ []) (
    append_cancel_left (denoms_prefix_key ++ (bar ∷ [])) _ _
      (append_cancel_right _ _ denom_authority_metadata_key h))
