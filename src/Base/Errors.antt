-- ===== src/Base/Errors.antt =====
-- internal/pkg/errors/errors.go: the domain errors and their constructors.
use Prim.Native.String.{String, ◌++◌}
use mathlib.Core.Option.{Option, some}
use mathlib.Core.List.{[]}
use duragraph.Base.Dict.{Dict, insert}

-- The sentinel errors, and an error of a library by its text.
pub data GoError : Type 0 where
  err_not_found err_already_exists err_invalid_input err_invalid_state err_concurrency : GoError
  err_unauthorized err_forbidden err_internal err_timeout err_graph_cycle : GoError
  err_max_iterations : GoError
  external : String → GoError

pub record DomainError : Type 0 where
  pub code : String
  pub message : String
  pub err : Option GoError
  pub details : Dict String

unfoldable pub new_domain_error : String → String → Option GoError → DomainError
new_domain_error code message err = record {
  code = code;
  message = message;
  err = err;
  details = [];
}

unfoldable pub with_details : DomainError → String → String → DomainError
with_details e key value = record e { details = insert key value e.details }

unfoldable pub not_found : String → String → DomainError
unfolding new_domain_error with_details
not_found resource id =
    let e = new_domain_error "NOT_FOUND" (resource ++ " not found") (some err_not_found) in
    with_details (with_details e "resource" resource) "id" id

unfoldable pub already_exists : String → String → DomainError
unfolding new_domain_error with_details
already_exists resource id =
    let e =
      new_domain_error "ALREADY_EXISTS" (resource ++ " already exists") (some err_already_exists) in
    with_details (with_details e "resource" resource) "id" id

unfoldable pub invalid_input : String → String → DomainError
unfolding new_domain_error with_details
invalid_input field reason =
    let e =
      new_domain_error "INVALID_INPUT" ("invalid input for field " ++ field)
        (some err_invalid_input) in
    with_details (with_details e "field" field) "reason" reason

unfoldable pub invalid_state : String → String → DomainError
unfolding new_domain_error with_details
invalid_state current attempted =
    let e =
      new_domain_error "INVALID_STATE" ("cannot perform operation in state " ++ current)
        (some err_invalid_state) in
    with_details (with_details e "current_state" current) "attempted_operation" attempted

unfoldable pub internal : String → GoError → DomainError
unfolding new_domain_error
internal message err = new_domain_error "INTERNAL_ERROR" message (some err)

-- The two results of a Go function that returns a value or an error.
pub data Result {ℓ} (A : Type ℓ) : Type ℓ where
  ok : A → Result A
  err : DomainError → Result A
