-- ===== src/DeployOutcome/Running.antt =====
-- When an instance of a connection runs, for connection.ts of agent-core, said without its tests.
use manifest_mcp_mono.Common.{
  ◌≡◌, ◌↔◌, ◌⊎◌, inl, inr, refl, ap, ◌∙◌, Bool, true, false, ◌&&◌, ◌||◌, Text, codes, same_text_iff,
  arith, Datum, undefined, null, truth, number, string, other, array, object, Elements, no_elements,
  element, Members, no_members, member, field,
}
use manifest_mcp_mono.DeployOutcome.{is_plain_object, is_text}
use manifest_mcp_mono.DeployOutcome.Response.{
  is_running, any_running, runs, any_service_runs, some_service_runs, has_running_instances,
}

-- An instance whose status is "running".
abbrev pub IsRunning : Datum → Type 0
IsRunning inst =
    ((ms : Members) × (inst ≡ object ms)) × (field "status" inst ≡ string (codes "running"))

-- One of the elements of an array runs.
abbrev pub SomeRunning : Elements → Type 0
SomeRunning no_elements = ⊥
SomeRunning (element inst xs) = IsRunning inst ⊎ SomeRunning xs

-- The member `instances` is an array in which an instance runs.
abbrev pub RunsIn : Datum → Type 0
RunsIn d = (xs : Elements) × (field "instances" d ≡ array xs) × SomeRunning xs

-- One of the members of an object has a running instance.
abbrev pub SomeService : Members → Type 0
SomeService no_members = ⊥
SomeService (member k svc rest) = RunsIn svc ⊎ SomeService rest

-- A connection has a running instance, of its own or in one of its services.
abbrev pub HasRunning : Datum → Type 0
HasRunning connection =
    ((ms : Members) × (connection ≡ object ms))
    × (RunsIn connection
        ⊎ ((svcs : Members) × (field "services" connection ≡ object svcs) × SomeService svcs))

is_plain_object_iff : (d : Datum) → (is_plain_object d ≡ true) ↔ ((ms : Members) × (d ≡ object ms))
is_plain_object_iff (object ms) = (λ h. (ms, refl), λ h. refl)
is_plain_object_iff undefined = (λ h. cc h, λ (ms, e). cc e)
is_plain_object_iff null = (λ h. cc h, λ (ms, e). cc e)
is_plain_object_iff (truth b) = (λ h. cc h, λ (ms, e). cc e)
is_plain_object_iff (number n) = (λ h. cc h, λ (ms, e). cc e)
is_plain_object_iff (string t) = (λ h. cc h, λ (ms, e). cc e)
is_plain_object_iff (other n) = (λ h. cc h, λ (ms, e). cc e)
is_plain_object_iff (array xs) = (λ h. cc h, λ (ms, e). cc e)

is_text-string : (d : Datum) (t : Text) → is_text d t ≡ true → d ≡ string t
is_text-string (string s) t h = ap string ((same_text_iff s t).0 h)
is_text-string (object ms) t h = cc h
is_text-string undefined t h = cc h
is_text-string null t h = cc h
is_text-string (truth b) t h = cc h
is_text-string (number n) t h = cc h
is_text-string (other n) t h = cc h
is_text-string (array xs) t h = cc h

string-is_text : (d : Datum) (t : Text) → d ≡ string t → is_text d t ≡ true
string-is_text d t e = ap (λ v. is_text v t) e ∙ (same_text_iff t t).1 refl

and_split : (a b : Bool) → (a && b) ≡ true → (a ≡ true) × (b ≡ true)
and_split a b h = (ground (arith, h), ground (arith, h))

pub or_split : (a b : Bool) → (a || b) ≡ true → (a ≡ true) ⊎ (b ≡ true)
or_split true b h = inl refl
or_split false b h = inr h

pub or_left : (a b : Bool) → a ≡ true → (a || b) ≡ true
or_left a b h = ground (arith, h)

pub or_right : (a b : Bool) → b ≡ true → (a || b) ≡ true
or_right a b h = ground (arith, h)

is_running_iff : (inst : Datum) → (is_running inst ≡ true) ↔ IsRunning inst
is_running_iff inst = (
  λ h.
      let (shape, status) =
        and_split (is_plain_object inst) (is_text (field "status" inst) (codes "running")) h in
      (
        (is_plain_object_iff inst).0 shape,
        is_text-string (field "status" inst) (codes "running") status,
      ),
  λ (shape, status).
      rw
        (
          (is_plain_object_iff inst).1 shape,
          string-is_text (field "status" inst) (codes "running") status,
        )
        refl,
)

any_running_iff : (xs : Elements) → (any_running xs ≡ true) ↔ SomeRunning xs
any_running_iff no_elements = (λ h. cc h, λ v. absurd v)
any_running_iff (element inst xs) =
    let (to, from) = any_running_iff xs in
    (
      λ h. elim (or_split (is_running inst) (any_running xs) h) [
        | inl now ↦ inl ((is_running_iff inst).0 now)
        | inr later ↦ inr (to later)
      ],
      λ v. elim v [
        | inl now ↦ or_left (is_running inst) (any_running xs) ((is_running_iff inst).1 now)
        | inr later ↦ or_right (is_running inst) (any_running xs) (from later)
      ],
    )

runs_array : (d : Datum) → (runs d ≡ true) ↔ ((xs : Elements) × (d ≡ array xs) × SomeRunning xs)
runs_array (array xs) =
    (λ h. (xs, refl, (any_running_iff xs).0 h), λ (ys, e, v). ap runs e ∙ (any_running_iff ys).1 v)
runs_array undefined = (λ h. cc h, λ (xs, e, v). cc e)
runs_array null = (λ h. cc h, λ (xs, e, v). cc e)
runs_array (truth b) = (λ h. cc h, λ (xs, e, v). cc e)
runs_array (number n) = (λ h. cc h, λ (xs, e, v). cc e)
runs_array (string t) = (λ h. cc h, λ (xs, e, v). cc e)
runs_array (other n) = (λ h. cc h, λ (xs, e, v). cc e)
runs_array (object ms) = (λ h. cc h, λ (xs, e, v). cc e)

any_service_iff : (ms : Members) → (any_service_runs ms ≡ true) ↔ SomeService ms
any_service_iff no_members = (λ h. cc h, λ v. absurd v)
any_service_iff (member k svc rest) =
    let (to, from) = any_service_iff rest in
    let own = field "instances" svc in
    (
      λ h. elim (or_split (runs own) (any_service_runs rest) h) [
        | inl now ↦ inl ((runs_array own).0 now)
        | inr later ↦ inr (to later)
      ],
      λ v. elim v [
        | inl now ↦ or_left (runs own) (any_service_runs rest) ((runs_array own).1 now)
        | inr later ↦ or_right (runs own) (any_service_runs rest) (from later)
      ],
    )

services_iff :
    (d : Datum) → (some_service_runs d ≡ true) ↔ ((ms : Members) × (d ≡ object ms) × SomeService ms)
services_iff (object ms) = (
  λ h. (ms, refl, (any_service_iff ms).0 h),
  λ (ns, e, v). ap some_service_runs e ∙ (any_service_iff ns).1 v,
)
services_iff undefined = (λ h. cc h, λ (xs, e, v). cc e)
services_iff null = (λ h. cc h, λ (xs, e, v). cc e)
services_iff (truth b) = (λ h. cc h, λ (xs, e, v). cc e)
services_iff (number n) = (λ h. cc h, λ (xs, e, v). cc e)
services_iff (string t) = (λ h. cc h, λ (xs, e, v). cc e)
services_iff (other n) = (λ h. cc h, λ (xs, e, v). cc e)
services_iff (array xs) = (λ h. cc h, λ (ys, e, v). cc e)

pub has_running_instances_iff :
    (connection : Datum) → (has_running_instances connection ≡ true) ↔ HasRunning connection
unfolding has_running_instances
has_running_instances_iff connection = (
  λ h.
      let own = runs (field "instances" connection) in
      let served = some_service_runs (field "services" connection) in
      let (shape, live) = and_split (is_plain_object connection) (own || served) h in
      (
        (is_plain_object_iff connection).0 shape,
        elim (or_split own served live) [
          | inl now ↦ inl ((runs_array (field "instances" connection)).0 now)
          | inr now ↦ inr ((services_iff (field "services" connection)).0 now)
        ],
      ),
  λ (shape, live).
      let own = runs (field "instances" connection) in
      let served = some_service_runs (field "services" connection) in
      rw ((is_plain_object_iff connection).1 shape) (elim live [
        | inl now ↦ or_left own served ((runs_array (field "instances" connection)).1 now)
        | inr now ↦ or_right own served ((services_iff (field "services" connection)).1 now)
      ]),
)
