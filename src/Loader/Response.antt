-- ===== src/Loader/Response.antt =====
-- `Response`, `Action` and `Storage` of loader.rs: what a handled message gives back, and the
-- guest RAM that it writes.
use switchvisor.Base.{ℕ, ◌-◌, Bool, List, ◌++◌, length, take, replicate, bit_or}
use switchvisor.Loader.Types.{State, StatusCode, state_code, status_code, reply_flag}
use switchvisor.Loader.Header
use switchvisor.Loader.Header.{Header}
use switchvisor.Loader.Descriptor.{BundleDescriptor}

-- The trait `Storage`: the new state of guest RAM, and whether the call succeeded.
pub record Storage (S : Type 0) : Type 0 where
  pub write : S → ℕ → List ℕ → S × Bool
  pub zero_fill : S → ℕ → ℕ → S × Bool

pub data Action : Type 0 where
  none : Action
  boot : BundleDescriptor → Action

pub record Response : Type 0 where
  pub header : Header
  pub bytes : List ℕ

-- The body is an array of 48 bytes, of which `header.length` are meant.
unfoldable pub new : Header → StatusCode → State → List ℕ → Response
new request code state body = record {
  header = record {
    opcode = bit_or request.opcode reply_flag;
    request_id = request.request_id;
    length = length body;
    arg0 = status_code code;
    arg1 = state_code state;
  };
  bytes = body ++ replicate (48 - length body) 0;
}

unfoldable pub body : Response → List ℕ
body r = take r.header.length r.bytes

unfoldable pub encode : Response → List ℕ
unfolding body
encode r = Header.encode r.header ++ body r
