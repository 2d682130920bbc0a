-- ===== src/LabRpc/Dispatch.antt =====
-- `dispatch` of a server and of a service (src/labrpc/labrpc.go): `none` where the program exits.
use mit_6_5840_distributed_s.Base.Bytes.{Bytes, bytes_eq}
use mit_6_5840_distributed_s.Base.Dict.{Dict, lookup}
use mit_6_5840_distributed_s.Base.{
  ℕ, ◌+◌, String, ◌≡◌, refl, Bool, true, not, ◌&&◌, Option, none, some, [], ◌∷◌, ◌++◌, arith, eqb,
  if◌then◌else◌, string_eq, ap, ◌∙◌,
}
use mit_6_5840_distributed_s.LabRpc.{Method, ReqMsg, ReplyMsg, Server}

-- The bytes before and after the last dot, `strings.LastIndex(s, ".")`.
abbrev pub dot : ℕ
dot = 46

unfoldable pub split_dot : Bytes → Option (Bytes × Bytes)
split_dot [] = none
split_dot (b ∷ bs) = elim (split_dot bs) [
  | some (service, method) ↦ some (b ∷ service, method)
  | none ↦ if eqb b dot then some ([], bs) else none
]

module _ {S : Type 0} where
  unfoldable pub service_dispatch :
      Option (Method S) → ReqMsg → Server S → Option (Server S × ReplyMsg)
  service_dispatch none req rs = none
  service_dispatch (some method) req rs =
      let (state, reply) = method req.args rs.state in
      some (record rs { state = state }, record { ok = true; reply = reply })

  unfoldable pub known_service :
      Option (Dict Bytes (Method S)) → Bytes → ReqMsg → Server S → Option (Server S × ReplyMsg)
  unfolding service_dispatch lookup
  known_service none method req rs = none
  known_service (some methods) method req rs = service_dispatch (lookup method methods) req rs

  unfoldable pub dispatch_to :
      Option (Bytes → Bytes → Bytes × Bool)
      → Bytes × Bytes
      → ReqMsg
      → Server S
      → Option (Server S × ReplyMsg)
  unfolding known_service lookup
  dispatch_to (some f) (service, method) req rs =
      let (rep, ok) = f req.svc_meth req.args in some (rs, record { ok = ok; reply = rep })
  dispatch_to none (service, method) req rs =
      known_service (lookup service rs.services) method req rs

  unfoldable pub dispatch : ReqMsg → Server S → Option (Server S × ReplyMsg)
  unfolding dispatch_to split_dot
  dispatch req rs =
      let rs' = record rs { count = rs.count + 1 } in
      elim (split_dot req.svc_meth) [
        | none ↦ none
        | some names ↦ dispatch_to rs.dispatchf names req rs'
      ]

-- No byte of the name is a dot.
abbrev pub no_dot : Bytes → Bool
no_dot [] = true
no_dot (b ∷ bs) = not (eqb b dot) && no_dot bs

split_dot-none : (method : Bytes) → no_dot method ≡ true → split_dot method ≡ none
unfolding split_dot
split_dot-none [] h = refl
split_dot-none (b ∷ bs) h = rw (split_dot-none bs (ground (arith, h))) (ground (arith, h))

split_dot-append :
    (service method : Bytes)
    → no_dot method ≡ true
    → split_dot (service ++ dot ∷ method) ≡ some (service, method)
unfolding split_dot
split_dot-append [] method h = rw (split_dot-none method h) refl
split_dot-append (b ∷ bs) method h = rw (split_dot-append bs method h) refl

-- A request whose method's name is a service's name, a dot and the name of a method of the service,
-- without a dot in the latter, runs that method on the server's state, answers with its reply, and
-- is counted, provided that the server has no dispatch function of its own.
pub dispatch_method :
    {S : Type 0} (rs : Server S) (service method args : Bytes) (endname : String)
    (methods : Dict Bytes (Method S)) (m : Method S)
    → no_dot method ≡ true
    → rs.dispatchf ≡ none
    → lookup service rs.services ≡ some methods
    → lookup method methods ≡ some m
    → dispatch (record { endname = endname; svc_meth = service ++ dot ∷ method; args = args }) rs
      ≡ some (
        record rs { count = rs.count + 1; state = (m args rs.state).0 },
        record { ok = true; reply = (m args rs.state).1 },
      )
unfolding dispatch dispatch_to known_service service_dispatch
dispatch_method {S} rs service method args endname methods m nd nf fs fm =
    let req : ReqMsg = record {
      endname = endname;
      svc_meth = service ++ dot ∷ method;
      args = args;
    } in
    let rs' : Server S = record rs { count = rs.count + 1 } in
    rw (dispatch, split_dot-append service method nd)
      (ap (λ f. dispatch_to f (service, method) req rs') nf
        ∙ ap (λ ms. known_service ms method req rs') fs
        ∙ ap (λ o. service_dispatch o req rs') fm)
