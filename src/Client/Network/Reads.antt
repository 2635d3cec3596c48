-- ===== src/Client/Network/Reads.antt =====
-- The reads of packages/protocol-sdk/src/client.ts check the network first.
use reclose.Prelude.{ℕ, String, Option, none, some, List, Bool, if◌then◌else◌}
use reclose.Async.{or_reject}
use reclose.Async.Leads.{Leads, Leads-if}
use reclose.Json.{Value}
use reclose.Policy.Manifest.{ActionType}
use reclose.Client.{Client, Session, RecloseTransport, RecloseAddresses, judge_read}
use reclose.Client.Values.{Cell, ClientError}
use reclose.Client.Records.{Target}
use reclose.Client.Reads.{
  kernel_tuple, kernel_num, kernel_str, get_target, get_policy_lifecycle, read_rule, read_effect,
  get_policy_by_key, get_active_policy,
}
use reclose.Client.Incidents.{
  get_incident, get_decision, list_incident_action_ids, get_incident_own_restrictions,
  get_incident_lineage,
}
use reclose.Client.Status.{
  push_restriction, restriction_of, incident_restrictions, effective_capabilities_of,
  get_assurance_state, restriction_count, get_effective_provider_status, read_provider_availability,
  get_provider_availability_tri_state,
}
use reclose.Client.Network.{
  Stays, Stays-IsPreorder, ◌then◌, done, refused, lifted, send-Stays, each_index-Stays, Opens,
  Guards, ◌opens◌, Opens-Guards, Guards-catch, quiet, kernel-Opens, judge_read-Opens,
}

-- `if (value === null) throw`
pub found :
    {A : Type 0} (e : ClientError) (o : Option A) → Leads Stays (or_reject {S = Session} e o)
found e none = refused
found e (some a) = done

pub choice :
    {A : Type 0} (b : Bool) {m n : Client A}
    → Leads Stays m
    → Leads Stays n
    → Leads Stays (if b then m else n)
choice b h k = Leads-if Stays Stays-IsPreorder b _ _ h k

module _ (t : RecloseTransport) (addresses : RecloseAddresses) where
  pub tuple-Opens :
      (f : String) (args : List Value) → Opens t addresses (kernel_tuple t addresses f args)
  tuple-Opens f args = kernel-Opens t addresses f args opens λ v. lifted

  pub get_target-Opens : (id : String) → Opens t addresses (get_target t addresses id)
  unfolding get_target
  get_target-Opens id = tuple-Opens _ _ opens λ c. lifted then λ a.
      lifted then λ o. lifted then λ st. lifted then λ k. lifted then λ r. lifted then λ g. done

  pub tuple-Stays : (f : String) (args : List Value) → Leads Stays (kernel_tuple t addresses f args)
  tuple-Stays f args = (tuple-Opens f args).leads

  pub num-Stays : (f : String) (args : List Value) → Leads Stays (kernel_num t addresses f args)
  num-Stays f args = (kernel-Opens t addresses f args).leads then λ v. lifted

  pub str-Stays : (f : String) (args : List Value) → Leads Stays (kernel_str t addresses f args)
  str-Stays f args = (kernel-Opens t addresses f args).leads then λ v. lifted

  pub get_policy_lifecycle-Opens :
      (key : String) → Opens t addresses (get_policy_lifecycle t addresses key)
  unfolding get_policy_lifecycle
  get_policy_lifecycle-Opens key = tuple-Opens _ _ opens λ c. lifted then λ a. lifted then λ o.
      lifted then λ st. lifted then λ k. lifted then λ r. lifted then λ g. lifted then λ h. done

  read_rule-Stays : (key : String) (i : ℕ) → Leads Stays (read_rule t addresses key i)
  unfolding read_rule
  read_rule-Stays key i = str-Stays _ _ then λ id. tuple-Stays _ _ then λ c.
      tuple-Stays _ _ then λ e.
      lifted then λ o. found _ _ then λ k. lifted then λ j. lifted then λ v. done

  read_effect-Stays : (key : String) (i : ℕ) → Leads Stays (read_effect t addresses key i)
  unfolding read_effect
  read_effect-Stays key i = tuple-Stays _ _ then λ c.
      lifted then λ r. lifted then λ a. lifted then λ d. lifted then λ p. lifted then λ h. done

  pub get_policy_by_key-Opens :
      (key id : String) → Opens t addresses (get_policy_by_key t addresses key id)
  unfolding get_policy_by_key
  get_policy_by_key-Opens key id = tuple-Opens _ _ opens λ h. tuple-Stays _ _ then λ c.
      lifted then λ r. lifted then λ s. lifted then λ e.
      each_index-Stays r 0 _ (read_rule-Stays key) then λ rs.
      each_index-Stays e 0 _ (read_effect-Stays key) then λ es.
      lifted then λ v. lifted then λ m. done

  pub get_active_policy-Opens : (id : String) → Opens t addresses (get_active_policy t addresses id)
  unfolding get_active_policy
  get_active_policy-Opens id =
      get_target-Opens id opens λ target. choice _ refused (get_policy_by_key-Opens _ _).leads

  pub get_incident-Opens : (id : String) → Opens t addresses (get_incident t addresses id)
  unfolding get_incident
  get_incident-Opens id = tuple-Opens _ _ opens λ c. lifted then λ a.
      choice _ refused done then λ _. lifted then λ o. lifted then λ f. lifted then λ p.
      lifted then λ r. lifted then λ s. lifted then λ q.
      lifted then λ j. lifted then λ e. lifted then λ k. lifted then λ d. lifted then λ l. done

  pub get_decision-Opens : (id : String) → Opens t addresses (get_decision t addresses id)
  unfolding get_decision
  get_decision-Opens id = tuple-Opens _ _ opens λ c. lifted then λ a.
      choice _ refused done then λ _. lifted then λ k. tuple-Stays _ _ then λ h. lifted then λ o.
      found _ _ then λ u. lifted then λ r. tuple-Stays _ _ then λ ru. lifted then λ p.
      lifted then λ v. lifted then λ ar. lifted then λ e.
      lifted then λ re. lifted then λ cc'. lifted then λ jm. lifted then λ jv. lifted then λ g. done

  pub list_incident_action_ids-Opens :
      (id : String) → Opens t addresses (list_incident_action_ids t addresses id)
  unfolding list_incident_action_ids
  list_incident_action_ids-Opens id =
      get_incident-Opens id opens λ i. (get_policy_by_key-Opens _ _).leads then λ p. done

  pub get_incident_own_restrictions-Opens :
      (id : String) → Opens t addresses (get_incident_own_restrictions t addresses id)
  unfolding get_incident_own_restrictions
  get_incident_own_restrictions-Opens id =
      (kernel-Opens t addresses _ _ opens λ v. lifted) opens λ n.
      each_index-Stays n 0 _ λ i. tuple-Stays _ _ then λ c. lifted then λ a. lifted then λ r. done

  judge-Stays : (f : String) (args : List Value) → Leads Stays (judge_read t addresses f args)
  judge-Stays f args = (judge_read-Opens t addresses f args).leads

  pub get_incident_lineage-Opens :
      (id : String) → Opens t addresses (get_incident_lineage t addresses id)
  unfolding get_incident_lineage
  get_incident_lineage-Opens id = judge_read-Opens t addresses _ _ opens λ p.
      judge-Stays _ _ then λ a. judge-Stays _ _ then λ b. judge-Stays _ _ then λ c.
      judge-Stays _ _ then λ d. judge-Stays _ _ then λ e. judge-Stays _ _ then λ f.
      judge-Stays _ _ then λ g. judge-Stays _ _ then λ h. lifted then λ n.
      each_index-Stays n 0 _ (λ i. judge-Stays _ _ then λ v. lifted) then λ cs. lifted then λ p'.
      lifted then λ a'. lifted then λ b'.
      lifted then λ c'. lifted then λ d'. lifted then λ e'. lifted then λ f'. lifted then λ g'. done

  pushes :
      (id : String) (a : Option ActionType) (c : List Cell) → Leads Stays (push_restriction id a c)
  unfolding push_restriction
  pushes id none c = done
  pushes id (some a) c = lifted then λ r. done

  incident_restrictions-Stays :
      (id : String) (i : ℕ) → Leads Stays (incident_restrictions t addresses id i)
  unfolding incident_restrictions restriction_of
  incident_restrictions-Stays id i = str-Stays _ _ then λ n. choice _ done (
      num-Stays _ _ then λ k.
      each_index-Stays k 0 _
        (λ j. tuple-Stays _ _ then λ c. choice _ (lifted then λ o. pushes n _ c) done)
      then λ rs. done)

  effective_capabilities_of-Stays :
      (target : Target) (rs : _) → Leads Stays (effective_capabilities_of t addresses target rs)
  unfolding effective_capabilities_of
  effective_capabilities_of-Stays target rs = choice _ done (
      (get_active_policy-Opens _).leads then λ p.
      each_index-Stays _ 0 _ (λ i. (kernel-Opens t addresses _ _).leads) then λ views.
      lifted then λ names. done)

  pub get_assurance_state-Opens :
      (id : String) → Opens t addresses (get_assurance_state t addresses id)
  unfolding get_assurance_state
  get_assurance_state-Opens id = get_target-Opens id opens λ target. num-Stays _ _ then λ n.
      each_index-Stays n 0 _ (incident_restrictions-Stays id) then λ rs.
      effective_capabilities_of-Stays target _ then λ cs.
      send-Stays _ t.get_block_number then λ b. done

  restriction_count-Stays :
      (target : Target) (r : String) → Leads Stays (restriction_count t addresses target r)
  unfolding restriction_count
  restriction_count-Stays target r = num-Stays _ _

  pub get_effective_provider_status-Opens :
      (id r : String) → Opens t addresses (get_effective_provider_status t addresses id r)
  unfolding get_effective_provider_status
  get_effective_provider_status-Opens id r = get_target-Opens id opens λ target.
      choice _ done (restriction_count-Stays target r then λ n. done)

  pub get_provider_availability_tri_state-Guards :
      (id r : String) → Guards t addresses (get_provider_availability_tri_state t addresses id r)
  unfolding get_provider_availability_tri_state read_provider_availability
  get_provider_availability_tri_state-Guards id r =
      Guards-catch t addresses
        (Opens-Guards t addresses (
          get_target-Opens id opens λ target.
          choice _ done (restriction_count-Stays target r then λ n. done)))
        λ e. quiet t addresses
