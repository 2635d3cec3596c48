-- ===== src/Async/Leads.antt =====
-- Where an async method may lead from each state: a preorder on states that holds from before to
-- after, on return and on rejection, with a rule for each way to build a method.
use reclose.Prelude.{
  Bool, true, false, if◌then◌else◌, List, [], ◌∷◌, Result, ok, throw, Option, none, some,
}
use reclose.Async.{Async, pure, reject, lift, gets, or_reject, resume, ◌>>=◌, collect}

module _ {S : Type 0} (R : S → S → Type 0) where
  pub record IsPreorder : Type 0 where
    pub stays : (s : S) → R s s
    pub joins : (s t u : S) → R s t → R t u → R s u

module _ {S E A : Type 0} (R : S → S → Type 0) where
  pub record Leads (m : Async S E A) : Type 0 where
    pub from : (s : S) → R s (m s).1

module _ {S E : Type 0} (R : S → S → Type 0) (p : IsPreorder R) where
  module _ {A : Type 0} where
    pub Leads-pure : (a : A) → Leads {E = E} R (pure a)
    Leads-pure a = record { from = p.stays }

    pub Leads-reject : (e : E) → Leads {A = A} R (reject e)
    Leads-reject e = record { from = p.stays }

    pub Leads-lift : (r : Result E A) → Leads R (lift r)
    Leads-lift r = record { from = p.stays }

    pub Leads-gets : (f : S → A) → Leads {E = E} R (gets f)
    Leads-gets f = record { from = p.stays }

    pub Leads-if :
        (b : Bool) (m n : Async S E A) → Leads R m → Leads R n → Leads R (if b then m else n)
    Leads-if true m n h k = h
    Leads-if false m n h k = k

    pub Leads-or_reject : (e : E) (o : Option A) → Leads R (or_reject e o)
    Leads-or_reject e none = record { from = p.stays }
    Leads-or_reject e (some a) = record { from = p.stays }

  module _ {A B : Type 0} where
    resume-leads :
        (f : A → Async S E B) (r : Result E A) (s t : S)
        → R s t
        → ((a : A) → Leads R (f a))
        → R s (resume f r t).1
    resume-leads f (ok a) s t h k = p.joins s t _ h ((k a).from t)
    resume-leads f (throw e) s t h k = h

    pub Leads-bind :
        (m : Async S E A) (f : A → Async S E B)
        → Leads R m
        → ((a : A) → Leads R (f a))
        → Leads R (m >>= f)
    Leads-bind m f h k = record { from = λ s. resume-leads f (m s).0 s (m s).1 (h.from s) k }

  module _ {A B : Type 0} where
    pub Leads-collect :
        (f : A → Async S E B) (xs : List A) → ((x : A) → Leads R (f x)) → Leads R (collect f xs)
    unfolding collect
    Leads-collect f [] h = Leads-pure []
    Leads-collect f (x ∷ xs) h =
        Leads-bind (f x) _ (h x)
          λ y. Leads-bind (collect f xs) _ (Leads-collect f xs h) λ ys. Leads-pure (y ∷ ys)

pub ruleset leads_rules =
    (Leads-pure, Leads-reject, Leads-lift, Leads-gets, Leads-or_reject, Leads-bind, Leads-collect)
