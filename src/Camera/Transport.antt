-- ===== src/Camera/Transport.antt =====
-- `TransportNode` of tuw_libcamera/src/transport/transport_node.cpp: the transports that it allows, the
-- parameter that it declares for them, and the images that it forwards.
pub mod Allowed
use tuw_spike.Base.{
  ℕ, ◌-◌, Bool, true, false, ◌&&◌, List, [], ◌∷◌, ◌++◌, length, leb, take, drop, map, ◌==◌,
  if◌then◌else◌,
}
use tuw_spike.Base.Text.{Bytes, bytes, bytes_eq}

abbrev pub suffix : Bytes
suffix = bytes "_pub"

abbrev pub raw_transport : Bytes
raw_transport = bytes "image_transport/raw"

-- `lookup_name` without the suffix.
unfoldable pub strip_suffix : Bytes → Bytes
strip_suffix lookup_name =
    let suffix_idx = length lookup_name - length suffix in
    if leb (length suffix) (length lookup_name) && bytes_eq (drop suffix_idx lookup_name) suffix
    then take suffix_idx lookup_name
    else lookup_name

-- The loop over `getDeclaredClasses()`.
unfoldable pub allowlist : List Bytes → List Bytes
allowlist [] = []
allowlist (n ∷ ns) =
    let rest = allowlist ns in
    if bytes_eq (strip_suffix n) raw_transport then rest else strip_suffix n ∷ rest

-- `compare(0, ns.size(), ns) == 0` and `erase(0, ns.size())`
abbrev pub erase_namespace : Bytes → Bytes → Bytes
erase_namespace ns topic =
    if bytes_eq (take (length ns) topic) ns then drop (length ns) topic else topic

-- `std::replace` of '/' by '.', which are 47 and 46.
abbrev pub dotted : Bytes → Bytes
dotted name = map (λ c. if c == 47 then 46 else c) name

-- `front() == '.'`; the name is not empty where the code calls it.
abbrev pub erase_dot : Bytes → Bytes
erase_dot [] = []
erase_dot (c ∷ rest) = if c == 46 then rest else c ∷ rest

-- `transport_param_name`, from the resolved topic and the effective namespace.
unfoldable pub transport_param_name : Bytes → Bytes → Bytes
transport_param_name topic ns =
    erase_dot (dotted (erase_namespace ns topic)) ++ bytes ".enable_pub_plugins"

-- The declared parameter with its default, the topic of the publisher, and what was passed to `publish`.
pub record Transport (I : Type 0) : Type 0 where
  pub param_name : Bytes
  pub param_default : List Bytes
  pub pub_topic : Bytes
  pub forwarded : List I

-- The constructor, over the declared classes, the resolved topic and the effective namespace.
abbrev pub create_transport : {I : Type 0} → List Bytes → Bytes → Bytes → Transport I
create_transport declared_classes topic ns = record {
  param_name = transport_param_name topic ns;
  param_default = allowlist declared_classes;
  pub_topic = topic;
  forwarded = [];
}

-- The callback of the subscription.
abbrev pub on_image : {I : Type 0} → I → Transport I → Transport I
on_image img t = record t { forwarded = t.forwarded ++ img ∷ [] }
