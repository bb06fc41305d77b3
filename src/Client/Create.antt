-- ===== src/Client/Create.antt =====
-- custom_components/teslatlas_hub/client.py: `create_client`, with the constructor of
-- `CurrentHubClient` and the certificate test of the pinned request class.
use teslatlas_home_assistant.Prelude.{
  ℕ, String, ◌≡◌, ◌⊎◌, inl, inr, refl, Bool, true, false, not, ◌&&◌, Option, none, some, arith,
  Bool-cases, str_eq, if◌then◌else◌,
}
use teslatlas_home_assistant.Errors.{Error, Result, ok, err, ◌>>=◌}
use teslatlas_home_assistant.Values.{Value, str, is_none, truthy}
use teslatlas_home_assistant.Models.{HubEndpoint}
use teslatlas_home_assistant.Credentials.{is_hex64}
use teslatlas_home_assistant.Payload.{tls_pin_bytes}
use teslatlas_home_assistant.Client.{Client, Wire}
use teslatlas_home_assistant.Client.Calls.{async_close}

-- What a caller of `create_client` gives beside the endpoint.
pub record Options : Type 0 where
  pub bearer_token : Value
  pub expected_hub_id : Value
  pub bearer_expires_at_ms : Value
  pub has_hass : Bool
  pub has_session : Bool

-- `CurrentHubClient.__init__`
unfoldable pub init_client : HubEndpoint → Options → Bool → Bool → Wire → Result Client
init_client endpoint o owns_session_wrapper transport_pin_bound wire =
    if not (is_none endpoint.tls_pin) && not transport_pin_bound
    then err Error.contract
    else ok (record {
      endpoint = endpoint;
      bearer_token = o.bearer_token;
      bearer_expires_at_ms = o.bearer_expires_at_ms;
      expected_hub_id = o.expected_hub_id;
      owns_session_wrapper = owns_session_wrapper;
      closed = false;
      detached = 0;
      wire = wire;
    })

unfoldable pub create_client : HubEndpoint → Options → Wire → Result Client
unfolding init_client
create_client endpoint o wire =
    if not (is_none endpoint.tls_pin)
    then (if not (truthy endpoint.use_tls)
        then err Error.contract
        else if o.has_session
        then err Error.type_error
        else if not o.has_hass
        then err Error.type_error
        else tls_pin_bytes endpoint.tls_pin >>= λ pin. init_client endpoint o true true wire)
    else if not o.has_session && not o.has_hass
    then err Error.type_error
    else init_client endpoint o false false wire

-- `PinnedClientRequest.send`: the digest of the peer's certificate, if there is one, against the
-- pin. A mismatch closes the connection and sends nothing.
unfoldable pub pin_admits : String → Option String → Bool
pin_admits expected none = false
pin_admits expected (some digest) = str_eq digest expected

-- A client as it is made.
record IsNew (owns : Bool) (c : Client) : Type 0 where
  open_now : c.closed ≡ false
  ownership : c.owns_session_wrapper ≡ owns
  attached : c.detached ≡ 0

unpinned-IsNew :
    (endpoint : HubEndpoint) (o : Options) (wire : Wire) (c : Client)
    → endpoint.tls_pin ≡ Value.null
    → create_client endpoint o wire ≡ ok c
    → IsNew false c
unfolding create_client
unpinned-IsNew endpoint o wire c e h = ground arith

pinned-IsNew :
    (endpoint : HubEndpoint) (o : Options) (wire : Wire) (c : Client) (s : String)
    → endpoint.tls_pin ≡ str s
    → create_client endpoint o wire ≡ ok c
    → (truthy endpoint.use_tls ≡ true) × (is_hex64 s ≡ true) × IsNew true c
unfolding create_client tls_pin_bytes
pinned-IsNew endpoint o wire c s e h = ground arith

-- A pin that is no text is refused.
odd_pin :
    (endpoint : HubEndpoint) (o : Options) (wire : Wire) (c : Client) (v : Value)
    → endpoint.tls_pin ≡ v
    → is_none v ≡ false
    → create_client endpoint o wire ≡ ok c
    → (s : String) × (v ≡ str s)
unfolding create_client tls_pin_bytes
odd_pin endpoint o wire c (str s) e n h = (s, refl)
odd_pin endpoint o wire c Value.null e n h = cc
odd_pin endpoint o wire c _ e n h = absurd (ground arith)

is_none-eq : (v : Value) → is_none v ≡ true → v ≡ Value.null
is_none-eq Value.null h = refl
is_none-eq _ h = cc

closing :
    (owns : Bool) (c : Client)
    → IsNew owns c
    → let times : ℕ = if owns then 1 else 0 in
      ((async_close c).detached ≡ times) × ((async_close (async_close c)).detached ≡ times)
unfolding async_close
closing owns c h = ground (arith, h.open_now, h.ownership, h.attached)

-- A client for a pinned endpoint has TLS on, a pin of 64 lowercase hexadecimal digits and a session
-- wrapper of its own, which closing it, once or twice, detaches once; a client for an unpinned
-- endpoint shares the session and detaches nothing.
pub create_client-close :
    (endpoint : HubEndpoint) (o : Options) (wire : Wire) (c : Client)
    → create_client endpoint o wire ≡ ok c
    → ((endpoint.tls_pin ≡ Value.null)
        × ((async_close c).detached ≡ 0)
        × ((async_close (async_close c)).detached ≡ 0))
      ⊎ ((truthy endpoint.use_tls ≡ true)
          × ((pin : String) × (endpoint.tls_pin ≡ str pin) × (is_hex64 pin ≡ true))
          × ((async_close c).detached ≡ 1)
          × ((async_close (async_close c)).detached ≡ 1))
create_client-close endpoint o wire c h = elim (Bool-cases (is_none endpoint.tls_pin)) [
  | inl none_given ↦
      (let e = is_none-eq endpoint.tls_pin none_given in
        let (once, twice) = closing false c (unpinned-IsNew endpoint o wire c e h) in
        inl (e, once, twice))
  | inr given ↦
      (let (s, e) = odd_pin endpoint o wire c endpoint.tls_pin refl given h in
        let (tls, form, new) = pinned-IsNew endpoint o wire c s e h in
        let (once, twice) = closing true c new in inr (tls, (s, e, form), once, twice))
]
