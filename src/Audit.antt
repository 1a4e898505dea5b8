-- ===== src/Audit.antt =====
-- internal/audit: the events of the ledger.
pub mod Ledger
pub mod File
use thimble.Base.{Bool, true, not, ◌&&◌, List, [], ◌∷◌, if◌then◌else◌, Bytes, codes, equal}

-- the operations that Thimble records
pub data Op : Type 0 where
  init recipient_add recipient_remove create update delete set and_set exec : Op
  peer_add peer_remove : Op

unfoldable pub op_text : Op → Bytes
op_text init = codes "init"
op_text recipient_add = codes "recipient_add"
op_text recipient_remove = codes "recipient_remove"
op_text create = codes "create"
op_text update = codes "update"
op_text delete = codes "delete"
op_text set = codes "set"
op_text and_set = codes "and_set"
op_text exec = codes "exec"
op_text peer_add = codes "peer_add"
op_text peer_remove = codes "peer_remove"

-- The timestamp is the clock's, and nothing reads it back.
pub record Event : Type 0 where
  pub timestamp : Bytes
  pub operator : Bytes
  pub op : Op
  pub app : Bytes
  pub env : Bytes
  pub subject : Bytes
  pub signers : List Bytes
  pub bootstrap : Bool

-- argument != "" && field != argument
abbrev pub excludes : Bytes → Bytes → Bool
excludes wanted actual = not (equal wanted []) && not (equal actual wanted)

unfoldable pub filter : List Event → Bytes → Bytes → List Event
filter [] app env = []
filter (e ∷ rest) app env =
    let later = filter rest app env in
    if excludes app e.app then later else if excludes env e.env then later else e ∷ later
