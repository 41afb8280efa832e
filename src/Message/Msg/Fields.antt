-- ===== src/Message/Msg/Fields.antt =====
-- InitRequest and the fields of a request.
use z3_engine.Base.{
  Bool-cases, inl, inr, ltb, sym, >>=-eq-ok, ok-injective, ok, some, none, ℕ, ◌+◌, ◌≡◌, ◌<◌, ap,
  arith, lt→ltb, some, Bytes, length,
}
use z3_engine.Message.Headers.{add_to}
use z3_engine.Message.Msg.{
  add_header, array_of, RtspMsg, response, init_response, copy_headers, request, new_msg, unset,
  init_request, version_1_0, set_version, with_version, get_method, method_of_obj,
}
use z3_engine.Text.Version.{z3_eok}

pub init_request-ok :
    (method : ℕ) (uri : Bytes) (m : RtspMsg)
    → 0 < length uri
    → init_request method uri m
      ≡ (record new_msg { obj = some (request method uri version_1_0) }, z3_eok)
unfolding init_request unset
init_request-ok method uri m h = rw (lt→ltb 1 (length uri + 1) (omega (arith, h)))

pub set_version-request :
    (m : RtspMsg) (method version old : ℕ) (uri : Bytes)
    → m.obj ≡ some (request method uri old)
    → set_version version m ≡ (record m { obj = some (request method uri version) }, z3_eok)
unfolding set_version with_version
set_version-request m method version old uri e = ap (λ o. with_version o version m) e

pub get_method-request :
    (m : RtspMsg) (method version : ℕ) (uri : Bytes)
    → m.obj ≡ some (request method uri version)
    → get_method m ≡ method
unfolding get_method method_of_obj
get_method-request m method version uri e = ap method_of_obj e

pub init_response-ok :
    (code : ℕ) (reason : Bytes) (m : RtspMsg)
    → 0 < length reason
    → init_response none code (some reason) m
      ≡ ok (record new_msg { obj = some (response code reason version_1_0) }, z3_eok)
unfolding init_response copy_headers unset
init_response-ok code reason m h = rw (lt→ltb 1 (length reason + 1) (omega (arith, h)))

pub set_version-response :
    (m : RtspMsg) (code version old : ℕ) (reason : Bytes)
    → m.obj ≡ some (response code reason old)
    → (set_version version m).0 ≡ m
unfolding set_version with_version
set_version-response m code version old reason e = ap (λ o. (with_version o version m).0) e

-- A request that was made without an error.
pub init_request-obj :
    (method : ℕ) (uri : Bytes) (m : RtspMsg)
    → (init_request method uri m).1 ≡ z3_eok
    → (init_request method uri m).0.obj ≡ some (request method uri version_1_0)
unfolding init_request unset
init_request-obj method uri m e = elim (Bool-cases (ltb 1 (length uri + 1))) [
  | inl t ↦ rw t
  | inr f ↦ absurd (ground (arith, rw f at e))
]

-- AddHeader changes the headers only.
pub add_header-obj :
    (field : ℕ) (value : Bytes) (m : RtspMsg) {e : ℕ} {out : RtspMsg}
    → add_header field value m ≡ ok (e, out)
    → out.obj ≡ m.obj
unfolding add_header
add_header-obj field value m {e} {out} h =
    let (r, _, q) =
      >>=-eq-ok (add_to field value (array_of m.headers))
        (λ (e', a). ok (e', record m { headers = some a })) h in
    ap (λ x. x.1.obj) (sym (ok-injective q))
