-- ===== src/Engine/Steps.antt =====
-- How steps that follow one another come out.
use x_tdb.Base.{
  ◌≡◌, ◌⊎◌, inl, inr, refl, ap, ◌∙◌, true, false, if_true, if_false, if◌then◌else◌, Bool,
}
use x_tdb.Engine.State.{
  EngineResult, success, err_engine_not_open, engine_ok, Engine, Step, ◌>>◌, guard_open,
}

pub engine_cases : (r : EngineResult) → (r ≡ success) ⊎ (engine_ok r ≡ false)
engine_cases EngineResult.success = inl refl
engine_cases EngineResult.err_invalid_path = inr refl
engine_cases EngineResult.err_container_open_failed = inr refl
engine_cases EngineResult.err_container_header_invalid = inr refl
engine_cases EngineResult.err_metadata_open_failed = inr refl
engine_cases EngineResult.err_wal_open_failed = inr refl
engine_cases EngineResult.err_chunk_allocation_failed = inr refl
engine_cases EngineResult.err_state_restoration_failed = inr refl
engine_cases EngineResult.err_wal_replay_failed = inr refl
engine_cases EngineResult.err_engine_not_open = inr refl
engine_cases EngineResult.err_invalid_data = inr refl

module _ (m k : Step) (e : Engine) where
  pub >>-ok : (m e).0 ≡ success → (m >> k) e ≡ k (m e).1
  unfolding ◌>>◌
  >>-ok h = if_true (k (m e).1) _ (engine_ok (m e).0) (ap engine_ok h)

  pub >>-failed : engine_ok (m e).0 ≡ false → (m >> k) e ≡ m e
  unfolding ◌>>◌
  >>-failed h = if_false (k (m e).1) _ (engine_ok (m e).0) h

-- Behind the test that the engine is open.
module _ (k : Step) (e : Engine) where
  pub open_then : e.is_open ≡ true → (guard_open >> k) e ≡ k e
  open_then o =
      let g : guard_open e ≡ (success, e) = if_true (success, e) _ e.is_open o in
      >>-ok guard_open k e (ap (λ (r : EngineResult × Engine). r.0) g)
      ∙ ap (λ (r : EngineResult × Engine). k r.1) g

  pub closed_then : e.is_open ≡ false → (guard_open >> k) e ≡ (err_engine_not_open, e)
  closed_then c =
      let g : guard_open e ≡ (err_engine_not_open, e) = if_false (success, e) _ e.is_open c in
      >>-failed guard_open k e (ap (λ (r : EngineResult × Engine). engine_ok r.0) g) ∙ g

-- A value that no step changes.
abbrev pub Keeps {ℓ} : {A : Type ℓ} → (Engine → A) → Step → Type ℓ
Keeps f m = (e : Engine) → f (m e).1 ≡ f e

pub >>-Keeps {ℓ} :
    {A : Type ℓ} (f : Engine → A) (m k : Step) → Keeps f m → Keeps f k → Keeps f (m >> k)
>>-Keeps f m k h h' e = elim (engine_cases (m e).0) [
  | inl ok ↦ ap (λ (r : EngineResult × Engine). f r.1) (>>-ok m k e ok) ∙ h' (m e).1 ∙ h e
  | inr bad ↦ ap (λ (r : EngineResult × Engine). f r.1) (>>-failed m k e bad) ∙ h e
]

-- Of two outcomes, one is chosen.
pub if-keeps {ℓ} :
    {A : Type ℓ} (f : Engine → A) (b : Bool) (x y : EngineResult × Engine) (a : A)
    → f x.1 ≡ a
    → f y.1 ≡ a
    → f (if b then x else y).1 ≡ a
if-keeps f true x y a h k = h
if-keeps f false x y a h k = k
