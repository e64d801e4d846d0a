-- ===== src/Types/Denoms/Bars.antt =====
-- Denoms, and what stands in them, hold no "|", the separator of the store's keys.
use tokenfactory.Base.{◌≡◌, subst, [], ◌∷◌, ◌++◌, false}
use tokenfactory.Base.Bytes.{Bytes, contains}
use tokenfactory.Base.Split.{contains-append}
use tokenfactory.Env.{Env, DenomLaws}
use tokenfactory.Types.Keys.Separation.{bar}
use tokenfactory.Types.Denoms.{token_denom, slash, module_denom_prefix}
use tokenfactory.Types.Denoms.RoundTrip.{WasBuilt}

-- The creator of a denom that was built has no bar, if the denom has none.
pub WasBuilt-no_bar :
    {env : Env} (denoms : DenomLaws env) {c s d : Bytes}
    → WasBuilt env c s d
    → contains bar c ≡ false
unfolding token_denom
WasBuilt-no_bar denoms {c} {s} {d} w =
    let whole : contains bar (token_denom c s) ≡ false =
      subst (λ x. contains bar x ≡ false) w.shape (denoms.no_bar d w.valid) in
    (contains-append bar c (slash ∷ s)
      (contains-append bar (module_denom_prefix ++ (slash ∷ [])) (c ++ (slash ∷ s)) whole).1).0
