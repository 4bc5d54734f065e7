-- ===== src/DynamicServer/Starting.antt =====
-- `EnsureServerRunning` by many callers at once. A `*startingServer` is a number, the channel `done`
-- is closed or not, and a call is split where it locks or waits. What the starter finds out,
-- `start_server` of Startup, is an argument of the step that ends it.
mod Invariant
mod Entering
pub mod Callers
use rms_gate.Base.{
  ℕ, ◌+◌, String, ◌≡◌, Bool, true, false, Option, none, some, List, [], ◌==◌, if◌then◌else◌, lookup,
  insert, delete,
}

pub record StartingServer : Type 0 where
  pub done : Bool
  pub result : Bool

-- Where a call stands; the answer of a starter is `none` for a panic.
pub data Phase : Type 0 where
  idle : Phase
  working : String → ℕ → Phase
  leaving : String → ℕ → Option Bool → Phase
  waiting_for : ℕ → Phase
  returned : Bool → Phase
  panicked : Phase

pub record Calls : Type 0 where
  pub starting_servers : List (String × ℕ)
  pub objects : ℕ → StartingServer
  pub next_object : ℕ
  pub phase : ℕ → Phase

abbrev pub put {ℓ} : {A : Type ℓ} → ℕ → A → (ℕ → A) → ℕ → A
put i a f j = if j == i then a else f j

-- Up to the first unlock: the call joins a start that is under way, or becomes the starter.
unfoldable pub enter : Calls → ℕ → String → Calls
enter s i name = elim (lookup name s.starting_servers) [
  | some o ↦ record s { phase = put i (waiting_for o) s.phase }
  | none ↦ record s {
    starting_servers = insert name s.next_object s.starting_servers;
    objects = put s.next_object (record { done = false; result = false }) s.objects;
    next_object = s.next_object + 1;
    phase = put i (working name s.next_object) s.phase;
  }
]

-- `s.result`, which stays false in a panic.
abbrev pub result_of : Option Bool → Bool
result_of answer = elim answer [ none ↦ false | some r ↦ r ]

-- The starter is done: it writes the result, and the deferred function closes the channel.
unfoldable pub complete : Calls → ℕ → String → ℕ → Option Bool → Calls
complete s i name o answer = record s {
  objects = put o (record { done = true; result = result_of answer }) s.objects;
  phase = put i (leaving name o answer) s.phase;
}

-- The rest of the deferred function, and the return.
unfoldable pub leave : Calls → ℕ → String → Option Bool → Calls
leave s i name answer = record s {
  starting_servers = delete name s.starting_servers;
  phase = put i (elim answer [ none ↦ panicked | some r ↦ returned r ]) s.phase;
}

-- A call that waited on the channel goes on.
unfoldable pub wake : Calls → ℕ → ℕ → Calls
wake s i o = record s { phase = put i (returned (s.objects o).result) s.phase }

unfoldable pub is_server_starting : Calls → String → Bool
is_server_starting s name = elim (lookup name s.starting_servers) [ none ↦ false | some o ↦ true ]

abbrev pub no_calls : Calls
no_calls = record {
  starting_servers = [];
  objects = λ o. record { done = false; result = false };
  next_object = 0;
  phase = λ i. idle;
}

-- The calls are numbered; each comes once, and any of them may take the next step.
pub data Step : Calls → Calls → Type 0 where
  enters : (s : Calls) (i : ℕ) (name : String) → s.phase i ≡ idle → Step s (enter s i name)
  completes :
      (s : Calls) (i o : ℕ) (name : String) (answer : Option Bool)
      → s.phase i ≡ working name o
      → Step s (complete s i name o answer)
  leaves :
      (s : Calls) (i o : ℕ) (name : String) (answer : Option Bool)
      → s.phase i ≡ leaving name o answer
      → Step s (leave s i name answer)
  wakes :
      (s : Calls) (i o : ℕ)
      → s.phase i ≡ waiting_for o
      → (s.objects o).done ≡ true
      → Step s (wake s i o)

pub data Reach : Calls → Type 0 where
  here : Reach no_calls
  next : {s t : Calls} → Reach s → Step s t → Reach t
