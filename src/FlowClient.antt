-- ===== src/FlowClient.antt =====
-- internal/infra/connect/flow_client.go: what the service sends to the flow controller. Message
-- fields that are always empty or constant are left out.
pub mod Graph
pub mod Observations
pub mod Digest
pub mod Request
use tolo_observation.Common.Text.{Text, text_eq}
use tolo_observation.Common.{Bool, true, false, List, get_or}
use tolo_observation.Common.Map.{lookup, insert}

-- A `map[string]bool` of the IDs of nodes or edges; a missing one reads `false`.
abbrev pub Ids : Type 0
Ids = List (Text × Bool)

abbrev pub has_id : Ids → Text → Bool
has_id ids id = get_or (lookup text_eq id ids) false

abbrev pub add_id : Text → Ids → Ids
add_id id ids = insert text_eq id true ids
