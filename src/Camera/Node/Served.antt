-- ===== src/Camera/Node/Served.antt =====
-- What the constructor leaves: a request handler that is ready, and a handler for each stream.
use tuw_spike.Base.{
  ℕ, zero, suc, ◌+◌, ◌^◌, ◌<◌, ◌≡◌, refl, sym, ap, ◌∙◌, List, [], ◌∷◌, Option, none, some, length,
  get_elem?, arith, Option-cases, ◌⊎◌, inl, inr, if◌then◌else◌, ltb,
}
use mathlib.Core.Path.{subst}
use tuw_spike.Base.Text.{Bytes, lookup}
use tuw_spike.Base.Result.{ok, ok-injective, bind-ok}
use tuw_spike.Camera.Formats.{Encoding, Table}
use tuw_spike.Camera.Streams.{
  StreamConfiguration, StreamParams, StreamHandler, create_stream_handler,
}
use tuw_spike.Camera.Requests.{State, stream_of, start}
use tuw_spike.Camera.Requests.Layout.{stream_of-none, stream_of-some}
use tuw_spike.Camera.Capture.{Stream, acquire_camera, allocate_buffers, create_stream_handlers}
use tuw_spike.Camera.Capture.Startup.{allocate_buffers-bound}
use tuw_spike.Camera.Capture.Configuration.{found_or_throw, configure_camera}
use tuw_spike.Camera.Node.{
  Params, Platform, Node, handler_of, first, others, streams_of, handlers_of, created_from,
  create_handler, state_or_throw, with_callback, construct,
}
use tuw_spike.Camera.Node.Ready.{
  IsReady, create-IsReady, create_stream_handlers-IsReady, with_callback-IsReady, state_or_throw-ok,
}

pub stream_of-bound : (b : List ℕ) (h c st : ℕ) → stream_of b h c ≡ some st → st < h
stream_of-bound b h c st e = elim (Option-cases (get_elem? b c)) [
  | inl n ↦ cc (e, stream_of-none b h c n)
  | inr (x, f) ↦ let test = sym (stream_of-some b h c x f) ∙ e in within x h st test
]
  where
    within : (x h st : ℕ) → (if ltb x h then some x else none) ≡ some st → st < h
    within x h st e = ground arith

found_or_throw-ok : {A : Type 0} {a : A} (o : Option A) → found_or_throw o ≡ ok a → o ≡ some a
found_or_throw-ok none e = cc e
found_or_throw-ok (some x) e = ap some (ok-injective e)

first-get : (roles : List Bytes) → first roles ≡ get_elem? roles 0
first-get [] = refl
first-get (r ∷ rs) = refl

module _ (table : Table) (ros : Encoding → Bytes) (params : Params) where
  streams_of-length :
      (allocate : ℕ → Option ℕ) (i : ℕ) (roles : List Bytes) (cfgs : List StreamConfiguration)
      → length (streams_of allocate i table ros params roles cfgs) ≡ length cfgs
  unfolding streams_of
  streams_of-length allocate i roles [] = refl
  streams_of-length allocate i roles (c ∷ cs) =
      ap suc (streams_of-length allocate (suc i) (others roles) cs)

  -- The stream `k` has a configuration and a role, and the handler that was made for it with the
  -- parameters of its role.
  abbrev pub Handled : List Bytes → List StreamConfiguration → List StreamHandler → ℕ → Type 0
  Handled roles cfgs hs k =
      (cfg : StreamConfiguration) × (h : StreamHandler) × (name : Bytes) × (topic : StreamParams)
      × (get_elem? cfgs k ≡ some cfg)
      × (get_elem? hs k ≡ some h)
      × (get_elem? roles k ≡ some name)
      × (lookup name params.topics ≡ some topic)
      × (create_stream_handler table ros cfg topic ≡ ok h)

  handler_of-made :
      (role : Option Bytes) (cfg : StreamConfiguration) (h : StreamHandler)
      → handler_of table ros params role cfg ≡ ok h
      → (name : Bytes) × (topic : StreamParams) × (role ≡ some name)
        × (lookup name params.topics ≡ some topic)
        × (create_stream_handler table ros cfg topic ≡ ok h)
  handler_of-made role cfg h e =
      let (name, a, e1) = bind-ok (found_or_throw role) _ h e in
      let (topic, b, e2) = bind-ok (found_or_throw (lookup name params.topics)) _ h e1 in
      (name, topic, found_or_throw-ok role a, found_or_throw-ok (lookup name params.topics) b, e2)

  Handled-others :
      (roles : List Bytes) (c : StreamConfiguration) (h : StreamHandler)
      (cs : List StreamConfiguration) (hs : List StreamHandler) (j : ℕ)
      → Handled (others roles) cs hs j
      → Handled roles (c ∷ cs) (h ∷ hs) (suc j)
  Handled-others [] c h cs hs j (cfg, g, name, topic, at, made, none_left, found, by) =
      absurd (cc none_left)
  Handled-others (r ∷ roles) c h cs hs j d = d

  pub handlers_of-Handled :
      (roles : List Bytes) (cfgs : List StreamConfiguration) (hs : List StreamHandler) (k : ℕ)
      → handlers_of table ros params roles cfgs ≡ ok hs
      → k < length cfgs
      → Handled roles cfgs hs k
  unfolding handlers_of
  handlers_of-Handled roles [] hs k e b = absurd (omega arith)
  handlers_of-Handled roles (c ∷ cs) hs k e b =
      let (h, made, e1) = bind-ok (handler_of table ros params (first roles) c) _ hs e in
      let (rest, more, e2) = bind-ok (handlers_of table ros params (others roles) cs) _ hs e1 in
      let same : h ∷ rest ≡ hs = ok-injective e2 in
      let (name, topic, role, found, by) = handler_of-made (first roles) c h made in
      subst (λ l. Handled roles (c ∷ cs) l k) same
        (elim (position k) [
          | inl z ↦ rw z (c, h, name, topic, refl, refl, sym (first-get roles) ∙ role, found, by)
          | inr (j, z) ↦
              let ih = handlers_of-Handled (others roles) cs rest j more (omega (arith, z)) in
              rw z (Handled-others roles c h cs rest j ih)
        ])
    where
      position : (n : ℕ) → (n ≡ 0) ⊎ ((j : ℕ) × (n ≡ suc j))
      position zero = inl refl
      position (suc j) = inr (j, refl)

module _ {P V : Type 0} (params : Params) (p : Platform P V) where
  -- What the constructor leaves.
  pub record IsStarted (node : Node P V) : Type 0 where
    pub before : State P V
    pub requests : ℕ
    pub ready : IsReady requests (length node.config) before
    pub few : requests < 2 ^ 64
    pub begun : node.request_handler ≡ start before
    pub handlers :
        handlers_of p.table p.ros params params.stream_roles node.config ≡ ok node.stream_handlers

  create_handler-IsReady :
      (n : ℕ) (fresh : State P V) → create_handler p n ≡ ok fresh → IsReady n 0 fresh
  create_handler-IsReady n fresh e =
      let (controls, x, f1) = bind-ok p.controls _ fresh e in
      let (unit, y, f2) = bind-ok (created_from p.creates 0 n) _ fresh f1 in
      subst (IsReady n 0) (ok-injective f2)
        (create-IsReady controls p.fresh_controls n p.offset p.metadata)

  joined-IsReady :
      (streams : List Stream) (fresh ready : State P V) (n : ℕ)
      → state_or_throw (create_stream_handlers p.accepts streams fresh) ≡ ok ready
      → IsReady n 0 fresh
      → IsReady n (length streams) ready
  joined-IsReady streams fresh ready n e h =
      let (fine, at_end) =
        state_or_throw-ok (create_stream_handlers p.accepts streams fresh) ready e in
      let none_before : 0 + length streams ≡ length streams = omega arith in
      subst (λ k. IsReady n k ready) none_before
        (subst (IsReady n (0 + length streams)) at_end
          (create_stream_handlers-IsReady p.accepts streams fresh n 0 fine h))

  -- The steps from the configuration on.
  start-IsStarted :
      (config : List StreamConfiguration) (n : ℕ) (fresh ready : State P V)
      (hs : List StreamHandler)
      → allocate_buffers (streams_of p.allocate 0 p.table p.ros params params.stream_roles config)
        ≡ ok n
      → create_handler p n ≡ ok fresh
      → state_or_throw (
          create_stream_handlers p.accepts
            (streams_of p.allocate 0 p.table p.ros params params.stream_roles config)
            fresh)
        ≡ ok ready
      → handlers_of p.table p.ros params params.stream_roles config ≡ ok hs
      → IsStarted (record {
        config = config;
        stream_handlers = hs;
        request_handler = start (with_callback params.camera_info_name ready);
      })
  start-IsStarted config n fresh ready hs enough made joined by =
      let streams = streams_of p.allocate 0 p.table p.ros params params.stream_roles config in
      let counted =
        subst (λ k. IsReady n k ready)
          (streams_of-length p.table p.ros params p.allocate 0 params.stream_roles config)
          (joined-IsReady streams fresh ready n joined (create_handler-IsReady n fresh made)) in
      record {
        before = with_callback params.camera_info_name ready;
        requests = n;
        ready = with_callback-IsReady params.camera_info_name n (length config) ready counted;
        few = allocate_buffers-bound streams n enough;
        begun = refl;
        handlers = by;
      }

  pub construct-IsStarted : (node : Node P V) → construct params p ≡ ok node → IsStarted node
  unfolding construct
  construct-IsStarted node e =
      let (camera, a, e1) = bind-ok (acquire_camera p.cameras params.camera) _ node e in
      let (config, c, e2) =
        bind-ok
          (configure_camera p.from_string p.generate p.validate p.configure params.setups
            params.stream_roles)
          _ node e1 in
      let (n, enough, e3) =
        bind-ok
          (allocate_buffers
            (streams_of p.allocate 0 p.table p.ros params params.stream_roles config))
          _ node e2 in
      let (fresh, made, e4) = bind-ok (create_handler p n) _ node e3 in
      let (ready, joined, e5) =
        bind-ok
          (state_or_throw (
            create_stream_handlers p.accepts
              (streams_of p.allocate 0 p.table p.ros params params.stream_roles config) fresh))
          _ node e4 in
      let (hs, by, e6) =
        bind-ok (handlers_of p.table p.ros params params.stream_roles config) _ node e5 in
      subst IsStarted (ok-injective e6)
        (start-IsStarted config n fresh ready hs enough made joined by)
