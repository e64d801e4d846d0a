-- ===== src/Keeper/Registry/Refines.antt =====
-- Transitions and permissions respect the agreement of registries.
use tokenfactory.Base.{◌≡◌, refl, sym, ◌∙◌, List, [], ◌∷◌, Option, inl, inr}
use tokenfactory.Base.Bytes.{Bytes}
use tokenfactory.Base.Outcome.{ok}
use tokenfactory.Env.{Env}
use tokenfactory.Types.Messages.{Msg}
use tokenfactory.Keeper.State.{State}
use tokenfactory.Keeper.MsgServer.{handle}
use tokenfactory.Keeper.MsgServer.Authority.{handle_needs-IsAdmin}
use tokenfactory.Keeper.Registry.{
  Registry, assign, register, Agrees, view, transition, transitions, IsPermitted, ArePermitted,
}

pub Agrees-trans : (r r' r'' : Registry) → Agrees r r' → Agrees r' r'' → Agrees r r''
Agrees-trans r r' r'' h k = record {
  admins = λ d. h.admins d ∙ k.admins d;
  lists = λ c e nb.
      let (a, b) = h.lists c e nb in
      let (a', b') = k.lists c e nb in ((λ i. a' (a i)), (λ i. b (b' i)));
}

pub Agrees-refl : (r : Registry) → Agrees r r
Agrees-refl r = record { admins = λ d. refl; lists = λ c e nb. ((λ i. i), (λ i. i)) }

module _ (env : Env) where
  -- Transitions do not tell registries apart that agree, nor does permission.
  pub transition-Agrees :
      (m : Msg env) (r r' : Registry)
      → Agrees r r'
      → Agrees (transition env m r) (transition env m r')
  unfolding transition register assign
  transition-Agrees (Msg.create_denom m) r r' h = record {
    admins = λ e. rw (h.admins e);
    lists = λ c e nb.
        let (a, b) = h.lists c e nb in
        (
          (λ x. elim x [ inl p ↦ inl p | inr i ↦ inr (a i) ]),
          (λ x. elim x [ inl p ↦ inl p | inr i ↦ inr (b i) ]),
        );
  }
  transition-Agrees (Msg.mint m) r r' h = h
  transition-Agrees (Msg.burn m) r r' h = h
  transition-Agrees (Msg.force_transfer m) r r' h = h
  transition-Agrees (Msg.change_admin m) r r' h = record {
    admins = λ e. rw (h.admins e);
    lists = h.lists;
  }
  transition-Agrees (Msg.set_denom_metadata m) r r' h = h

  pub transitions-Agrees :
      (ms : List (Msg env)) (r r' : Registry)
      → Agrees r r'
      → Agrees (transitions env ms r) (transitions env ms r')
  unfolding transitions
  transitions-Agrees [] r r' h = h
  transitions-Agrees (m ∷ ms) r r' h =
      transitions-Agrees ms (transition env m r) (transition env m r') (transition-Agrees m r r' h)

  pub IsPermitted-Agrees :
      (m : Msg env) (r r' : Registry) → Agrees r r' → IsPermitted env m r → IsPermitted env m r'
  unfolding IsPermitted
  IsPermitted-Agrees (Msg.create_denom m) r r' h p = tt
  IsPermitted-Agrees (Msg.mint m) r r' h p = sym (h.admins m.amount.denom) ∙ p
  IsPermitted-Agrees (Msg.burn m) r r' h p = sym (h.admins m.amount.denom) ∙ p
  IsPermitted-Agrees (Msg.force_transfer m) r r' h p = sym (h.admins m.amount.denom) ∙ p
  IsPermitted-Agrees (Msg.change_admin m) r r' h p = sym (h.admins m.denom) ∙ p
  IsPermitted-Agrees (Msg.set_denom_metadata m) r r' h p = sym (h.admins (env.base m.metadata)) ∙ p

  pub ArePermitted-Agrees :
      (ms : List (Msg env)) (r r' : Registry)
      → Agrees r r'
      → ArePermitted env ms r
      → ArePermitted env ms r'
  unfolding ArePermitted
  ArePermitted-Agrees [] r r' h p = tt
  ArePermitted-Agrees (m ∷ ms) r r' h (p, ps) = (
    IsPermitted-Agrees m r r' h p,
    ArePermitted-Agrees ms (transition env m r) (transition env m r') (transition-Agrees m r r' h)
        ps,
  )

  pub handle-IsPermitted :
      (m : Msg env) (s t : State env) {r : Option Bytes}
      → handle env m s ≡ (ok r, t)
      → IsPermitted env m (view env s)
  unfolding IsPermitted view
  handle-IsPermitted (Msg.create_denom m) s t h = tt
  handle-IsPermitted (Msg.mint m) s t h = handle_needs-IsAdmin env (Msg.mint m) s t _ refl h
  handle-IsPermitted (Msg.burn m) s t h = handle_needs-IsAdmin env (Msg.burn m) s t _ refl h
  handle-IsPermitted (Msg.force_transfer m) s t h =
      handle_needs-IsAdmin env (Msg.force_transfer m) s t _ refl h
  handle-IsPermitted (Msg.change_admin m) s t h =
      handle_needs-IsAdmin env (Msg.change_admin m) s t _ refl h
  handle-IsPermitted (Msg.set_denom_metadata m) s t h =
      handle_needs-IsAdmin env (Msg.set_denom_metadata m) s t _ refl h
