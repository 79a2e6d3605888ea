-- ===== src/Metadata.antt =====
-- feature_stores.go: MemoryMetadataStore, a map of metadata per user.
use mathlib.Core.Option.{get_or}
use awesome_go_auth.Base.{String, List, [], ◌∷◌}
use awesome_go_auth.Base.Dict.{Dict, empty, get, put, remove}
use awesome_go_auth.Errors.{ok, M}
use awesome_go_auth.Models.{Any}

pub record MemoryMetadataStore : Type 0 where
  pub by_user : Dict (Dict Any)

unfoldable pub new_memory_metadata_store : MemoryMetadataStore
new_memory_metadata_store = record { by_user = empty }

-- for k, v := range metadata { current[k] = v }
unfoldable pub assign_all : {V : Type 0} → List (String × V) → Dict V → Dict V
assign_all [] d = d
assign_all ((k, v) ∷ m) d = put (assign_all m d) k v

unfoldable pub get_metadata : String → MemoryMetadataStore → Dict Any
get_metadata user_id s = get_or (get s.by_user user_id) empty

unfoldable pub update_metadata : String → Dict Any → M MemoryMetadataStore (Unit {0})
update_metadata user_id metadata s =
    let current = get_or (get s.by_user user_id) empty in
    (ok tt, record { by_user = put s.by_user user_id (assign_all metadata.entries current) })

unfoldable pub clear_metadata : String → M MemoryMetadataStore (Unit {0})
clear_metadata user_id s = (ok tt, record { by_user = remove s.by_user user_id })
