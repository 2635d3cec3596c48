-- ===== src/Client/Network.antt =====
-- The network guard of packages/protocol-sdk/src/client.ts: what the client has asked its transport
-- before it knows that the chain is the canonical one.
pub mod Reads
pub mod Writes
pub mod Calls
use reclose.Prelude.{
  ℕ, zero, suc, ◌+◌, String, Bool, true, false, List, [], ◌∷◌, ◌≡◌, refl, ◌⊎◌, inl, inr, Result, ok,
  throw, Option, none, some, if◌then◌else◌, All, arith, ap, ◌∙◌, Bool-cases, Result-cases, nat_beq,
  nat_beq_iff, length, ◌==◌, nat_eq,
}
use reclose.Async.{Async, pure, reject, lift, or_reject, resume, recover, catch}
use reclose.Async.Leads.{
  IsPreorder, Leads, Leads-if, Leads-bind, Leads-pure, Leads-reject, Leads-lift, leads_rules,
}
use reclose.Json.{Value}
use reclose.Client.{
  ◌>>=◌, ◌>>◌, Client, Session, Request, ask_chain_id, ask_mapping, RecloseTransport,
  RecloseAddresses, canonical_chain_id, assert_canonical_chain_id, send, check_network,
  ensure_network, read_at, kernel, judge_read,
}
use reclose.Client.Values.{ClientError}
use reclose.Client.Reads.{each_index}

-- A request that may precede the check of the network: the check itself, and a look into the
-- index.
abbrev pub IsPreliminary : Request → Type 0
IsPreliminary ask_chain_id = Unit
IsPreliminary (ask_mapping id) = Unit
IsPreliminary _ = ⊥

abbrev pub IsChecked : Session → Type 0
IsChecked s = s.network_checked ≡ true

-- The transport has reported the canonical chain, or only preliminary requests have been sent.
abbrev pub IsSound : RecloseTransport → Session → Type 0
IsSound t s =
    (IsChecked s × (n : ℕ) × (t.get_chain_id n ≡ ok canonical_chain_id))
    ⊎ ((s.network_checked ≡ false) × All IsPreliminary s.requests)

-- A method keeps the check.
abbrev pub Stays : Session → Session → Type 0
Stays s u = IsChecked s → IsChecked u

pub Stays-IsPreorder : IsPreorder Stays
Stays-IsPreorder = record { stays = λ s h. h; joins = λ s u v f g h. g (f h) }

infixr 3 ◌then◌
pub ◌then◌ :
    {A B : Type 0} {m : Client A} {f : A → Client B}
    → Leads Stays m
    → ((a : A) → Leads Stays (f a))
    → Leads Stays (m >>= f)
unfolding ◌>>=◌
h then k = Leads-bind Stays Stays-IsPreorder _ _ h k

pub done : {A : Type 0} {a : A} → Leads {E = ClientError} Stays (pure a)
done = Leads-pure Stays Stays-IsPreorder _

pub refused : {A : Type 0} {e : ClientError} → Leads {A = A} Stays (reject e)
refused = Leads-reject Stays Stays-IsPreorder _

pub lifted : {A : Type 0} {r : Result ClientError A} → Leads Stays (lift r)
lifted = Leads-lift Stays Stays-IsPreorder _

pub send-Stays : {A : Type 0} (r : Request) (f : ℕ → Result String A) → Leads Stays (send r f)
unfolding send
send-Stays r f = record { from = λ s h. h }

pub each_index-Stays :
    {A : Type 0} (n i : ℕ) (f : ℕ → Client A)
    → ((j : ℕ) → Leads Stays (f j))
    → Leads Stays (each_index n i f)
each_index-Stays zero i f h = done
each_index-Stays (suc n) i f h = h i then λ x. each_index-Stays n (i + 1) f h then λ xs. done

pub catch-Stays :
    {A : Type 0} (m : Client A) (f : ClientError → Client A)
    → Leads Stays m
    → ((e : ClientError) → Leads Stays (f e))
    → Leads Stays (catch m f)
catch-Stays m f h k = record { from = λ s c. caught (m s).0 (m s).1 (h.from s c) }
  where
    caught : (r : Result ClientError _) (u : Session) → IsChecked u → IsChecked (recover f r u).1
    caught (ok a) u c = c
    caught (throw e) u c = (k e).from u c

module _ (t : RecloseTransport) (addresses : RecloseAddresses) where
  pub ensure_network-Stays : Leads Stays (ensure_network t addresses)
  unfolding ensure_network
  ensure_network-Stays = record { from = λ s h. rw h refl }

  pub read_at-Stays :
      (a f : String) (args : List Value) → Leads Stays (read_at t addresses a f args)
  unfolding read_at send
  read_at-Stays a f args = record { from = λ s h. h }

  pub kernel-Stays : (f : String) (args : List Value) → Leads Stays (kernel t addresses f args)
  unfolding kernel
  kernel-Stays f args = ensure_network-Stays then λ _. read_at-Stays _ f args

  pub judge_read-Stays :
      (f : String) (args : List Value) → Leads Stays (judge_read t addresses f args)
  unfolding judge_read
  judge_read-Stays f args = ensure_network-Stays then λ _. read_at-Stays _ f args

  -- A sound session stays sound, and is checked where the method returns.
  abbrev pub After : {A : Type 0} → Result ClientError A × Session → Type 0
  After (ok a, u) = IsSound t u × IsChecked u
  After (throw e, u) = IsSound t u

  pub record Opens {A : Type 0} (m : Client A) : Type 0 where
    pub opened : (s : Session) → IsSound t s → After (m s)
    pub leads : Leads Stays m

  pub record Guards {A : Type 0} (m : Client A) : Type 0 where
    pub guarded : (s : Session) → IsSound t s → IsSound t (m s).1

  IsSound-network_checked : (s u : Session) → IsSound t s → IsChecked s → IsChecked u → IsSound t u
  IsSound-network_checked s u (inl (_, n, chain)) c d = inl (d, n, chain)
  IsSound-network_checked s u (inr (n, _)) c d = cc

  module _ {A : Type 0} where
    IsSound-After : (r : Result ClientError A × Session) → After r → IsSound t r.1
    IsSound-After (ok a, u) h = h.0
    IsSound-After (throw e, u) h = h

    pub Opens-Guards : {m : Client A} → Opens m → Guards m
    Opens-Guards o = record { guarded = λ s h. IsSound-After _ (o.opened s h) }

    After-resume :
        {B : Type 0} (f : A → Client B) (r : Result ClientError A × Session)
        → After r
        → ((a : A) → Leads Stays (f a))
        → After (resume f r.0 r.1)
    After-resume f (ok a, u) (sound, c) k =
        after_stay (f a u) (IsSound-network_checked u _ sound c ((k a).from u c)) ((k a).from u c)
      where
        after_stay :
            {B : Type 0} (r : Result ClientError B × Session)
            → IsSound t r.1
            → IsChecked r.1
            → After r
        after_stay (ok b, u) h d = (h, d)
        after_stay (throw e, u) h d = h
    After-resume f (throw e, u) h k = h

    bind-Opens :
        {B : Type 0} {m : Client A} {f : A → Client B}
        → Opens m
        → ((a : A) → Leads Stays (f a))
        → Opens (m >>= f)
    unfolding ◌>>=◌
    bind-Opens o k = record {
      opened = λ s h. After-resume _ _ (o.opened s h) k;
      leads = o.leads then k;
    }

    resume_guarded :
        {B : Type 0} (f : A → Client B) (r : Result ClientError A) (u : Session)
        → IsSound t u
        → ((a : A) → Guards (f a))
        → IsSound t (resume f r u).1
    resume_guarded f (ok a) u h k = (k a).guarded u h
    resume_guarded f (throw e) u h k = h

    bind-Guards :
        {B : Type 0} {m : Client A} {f : A → Client B}
        → Guards m
        → ((a : A) → Guards (f a))
        → Guards (m >>= f)
    unfolding ◌>>=◌
    bind-Guards g k = record { guarded = λ s h. resume_guarded _ _ _ (g.guarded s h) k }

    -- A method that sends nothing.
    pub quiet : {f : Session → Result ClientError A} → Guards (λ s. (f s, s))
    quiet = record { guarded = λ s h. h }

    pub Guards-if : (b : Bool) {m n : Client A} → Guards m → Guards n → Guards (if b then m else n)
    Guards-if true g h = g
    Guards-if false g h = h

    recover_guarded :
        (f : ClientError → Client A) (r : Result ClientError A) (u : Session)
        → IsSound t u
        → ((e : ClientError) → Guards (f e))
        → IsSound t (recover f r u).1
    recover_guarded f (ok a) u h k = h
    recover_guarded f (throw e) u h k = (k e).guarded u h

    pub Guards-catch :
        {m : Client A} {f : ClientError → Client A}
        → Guards m
        → ((e : ClientError) → Guards (f e))
        → Guards (catch m f)
    Guards-catch g k = record { guarded = λ s h. recover_guarded _ _ _ (g.guarded s h) k }

  asked : Session → Session
  asked s = record s { requests = ask_chain_id ∷ s.requests }

  IsSound-asked : (s : Session) → IsSound t s → IsSound t (asked s)
  unfolding asked
  IsSound-asked s (inl checked) = inl checked
  IsSound-asked s (inr (unchecked, preliminary)) = inr (unchecked, (tt, preliminary))

  check_network-After : (s : Session) → IsSound t s → After (check_network t addresses s)
  unfolding check_network send assert_canonical_chain_id asked ◌>>=◌
  check_network-After s h = elim (Result-cases (t.get_chain_id (length s.requests))) [
    | inr (e, p) ↦ rw p (IsSound-asked s h)
    | inl (chain_id, p) ↦ elim (Bool-cases (nat_beq chain_id canonical_chain_id)) [
      | inl same ↦
          rw (p, same)
            (let q : t.get_chain_id (length s.requests) ≡ ok canonical_chain_id =
                p ∙ ap ok ((nat_beq_iff chain_id canonical_chain_id).0 same) in
              (inl (refl, length s.requests, q), refl))
      | inr other ↦ rw (p, other) (IsSound-asked s h)
    ]
  ]

  After-if :
      {A : Type 0} (b : Bool) (m n : Result ClientError A × Session)
      → (b ≡ true → After m)
      → (b ≡ false → After n)
      → After (if b then m else n)
  After-if true m n h k = h refl
  After-if false m n h k = k refl

  ensure_network-After : (s : Session) → IsSound t s → After (ensure_network t addresses s)
  unfolding ensure_network
  ensure_network-After s h =
      After-if s.network_checked (pure tt s) (check_network t addresses s) (λ c. (h, c))
        (λ u. check_network-After s h)

  pub ensure_network-Opens : Opens (ensure_network t addresses)
  ensure_network-Opens = record { opened = ensure_network-After; leads = ensure_network-Stays }

module _ {t : RecloseTransport} {addresses : RecloseAddresses} {A B : Type 0} where
  infixr 3 ◌opens◌ ◌guards◌
  pub ◌opens◌ :
      {m : Client A} {f : A → Client B}
      → Opens t addresses m
      → ((a : A) → Leads Stays (f a))
      → Opens t addresses (m >>= f)
  o opens k = bind-Opens t addresses o k

  pub ◌guards◌ :
      {m : Client A} {f : A → Client B}
      → Guards t addresses m
      → ((a : A) → Guards t addresses (f a))
      → Guards t addresses (m >>= f)
  g guards k = bind-Guards t addresses g k

module _ {t : RecloseTransport} {addresses : RecloseAddresses} {A : Type 0} where
  pub Guards-pure : {a : A} → Guards t addresses (pure a)
  Guards-pure = record { guarded = λ s h. h }

  pub Guards-reject : {e : ClientError} → Guards t addresses {A = A} (reject e)
  Guards-reject = record { guarded = λ s h. h }

  pub Guards-lift : {r : Result ClientError A} → Guards t addresses (lift r)
  Guards-lift = record { guarded = λ s h. h }

  pub branch :
      (b : Bool) {m n : Client A}
      → Guards t addresses m
      → Guards t addresses n
      → Guards t addresses (if b then m else n)
  branch b g h = Guards-if t addresses b g h

module _ (t : RecloseTransport) (addresses : RecloseAddresses) where
  pub kernel-Opens :
      (f : String) (args : List Value) → Opens t addresses (kernel t addresses f args)
  unfolding kernel
  kernel-Opens f args =
      ensure_network-Opens t addresses opens λ _. read_at-Stays t addresses _ f args

  pub judge_read-Opens :
      (f : String) (args : List Value) → Opens t addresses (judge_read t addresses f args)
  unfolding judge_read
  judge_read-Opens f args =
      ensure_network-Opens t addresses opens λ _. read_at-Stays t addresses _ f args
