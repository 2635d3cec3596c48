-- ===== src/Async.antt =====
-- An async method that runs over a state, and returns or rejects. What it wrote before it rejected
-- stays written, so the state comes back in both cases.
pub mod Leads
use reclose.Prelude.{◌≡◌, ◌⊎◌, inl, inr, refl, List, [], ◌∷◌, Result, ok, throw, Option, none, some}

abbrev pub Async : (S E A : Type 0) → Type 0
Async S E A = S → Result E A × S

module _ {S E A : Type 0} where
  abbrev pub pure : A → Async S E A
  pure a s = (ok a, s)

  abbrev pub reject : E → Async S E A
  reject e s = (throw e, s)

  -- A synchronous call that may throw.
  abbrev pub lift : Result E A → Async S E A
  lift r s = (r, s)

  abbrev pub gets : (S → A) → Async S E A
  gets f s = (ok (f s), s)

  -- `if (value === null) throw e;`
  abbrev pub or_reject : E → Option A → Async S E A
  or_reject e none s = (throw e, s)
  or_reject e (some a) s = (ok a, s)

abbrev pub modify : {S E : Type 0} → (S → S) → Async S E (Unit {0})
modify f s = (ok tt, f s)

abbrev pub resume : {S E A B : Type 0} → (A → Async S E B) → Result E A → S → Result E B × S
resume f (ok a) s = f a s
resume f (throw e) s = (throw e, s)

infixl 5 ◌>>=◌ ◌>>◌
abbrev pub ◌>>=◌ : {S E A B : Type 0} → Async S E A → (A → Async S E B) → Async S E B
◌>>=◌ m f s = let (r, s') = m s in resume f r s'

abbrev pub ◌>>◌ : {S E A B : Type 0} → Async S E A → Async S E B → Async S E B
m >> k = m >>= λ _. k

-- `try { return await m; } catch (error) { return await f(error); }`
abbrev pub recover : {S E A : Type 0} → (E → Async S E A) → Result E A → S → Result E A × S
recover f (ok a) s = (ok a, s)
recover f (throw e) s = f e s

abbrev pub catch : {S E A : Type 0} → Async S E A → (E → Async S E A) → Async S E A
catch m f s = let (r, s') = m s in recover f r s'

-- `for (const x of xs) out.push(await f(x));`
unfoldable pub collect : {S E A B : Type 0} → (A → Async S E B) → List A → Async S E (List B)
collect f [] = pure []
collect f (x ∷ xs) = do y ← f x; ys ← collect f xs; pure (y ∷ ys)

pub run-cases :
    {S E A : Type 0} (r : Result E A × S)
    → ((a : A) × (s : S) × (r ≡ (ok a, s))) ⊎ ((e : E) × (s : S) × (r ≡ (throw e, s)))
run-cases (ok a, s) = inl (a, s, refl)
run-cases (throw e, s) = inr (e, s, refl)
