-- ===== src/Whitelist.antt =====
-- internal/whitelist/checker.go: the check of one player. Building the request, the deadline, and
-- what the service answers are arguments.
use rms_gate.Base.{
  ℕ, String, Option, none, some, List, [], ◌∷◌, ◌++◌, ◌==◌, if◌then◌else◌, ℤ, codes,
}

pub data CheckResult : Type 0 where
  allowed not_in_whitelist server_error : CheckResult

-- `strings.TrimSuffix(s, "/")`
unfoldable pub trim_slash_behind : List ℕ → List ℕ
trim_slash_behind [] = []
trim_slash_behind (c ∷ []) = if c == b'/' then [] else c ∷ []
trim_slash_behind (c ∷ d ∷ s) = c ∷ trim_slash_behind (d ∷ s)

pub record WhitelistRequest : Type 0 where
  pub username : String
  pub uuid : String
  pub server_tier : ℤ

-- The service, as the code uses it: the body of a request, if it can be encoded; a request to an
-- address, if it can be made; and the status code, if there is an answer in time.
pub record Service (Request : Type 0) : Type 0 where
  pub encode : WhitelistRequest → Option (List ℕ)
  pub new_request : List ℕ → List ℕ → Option Request
  pub do_request : Request → ℤ → Option ℕ

unfoldable pub check_address : List ℕ → List ℕ
unfolding trim_slash_behind
check_address base_url = trim_slash_behind base_url ++ codes "/api/whitelist"

unfoldable pub result_of_status : ℕ → CheckResult
result_of_status status =
    if status == 200 then allowed else if status == 403 then not_in_whitelist else server_error

module _ {Request : Type 0} where
  unfoldable pub check : Service Request → String → String → List ℕ → ℤ → ℤ → CheckResult
  unfolding check_address result_of_status
  check sv username uuid base_url timeout_seconds server_tier =
      let body : WhitelistRequest = record {
        username = username;
        uuid = uuid;
        server_tier = server_tier;
      } in
      elim (sv.encode body) [
        | none ↦ server_error
        | some json ↦ elim (sv.new_request (check_address base_url) json) [
          | none ↦ server_error
          | some req ↦ elim (sv.do_request req timeout_seconds) [
            | none ↦ server_error
            | some status ↦ result_of_status status
          ]
        ]
      ]
