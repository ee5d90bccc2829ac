-- ===== src/Fleet/Locator.antt =====
-- `parse_locator` of src/kernel_infra/fleet.py.
use Prim.Native.Char.{code}
use gpu_infra.Prelude.{
  ℕ, String, ◌&&◌, eqb, count_by, if◌then◌else◌, Result, ok, ◌>>=◌, ◌>>◌, guard,
}
use gpu_infra.Fault.{Fault, contract_error}
use gpu_infra.Contracts.Values.{codes, is_identifier}
use gpu_infra.Fleet.Types.{FleetNode, FleetCatalog, is_run_name}
use gpu_infra.Fleet.Catalog.{fleet_node}

-- `value.split(c, 1)` of a text that has the character: what stands before its first place, and
-- after it
unfoldable pub before : ℕ → String → String
before n String.[] = ""
before n (String.◌∷◌ c s) =
    let rest = before n s in if eqb (code c) n then "" else String.◌∷◌ c rest

unfoldable pub after : ℕ → String → String
after n String.[] = ""
after n (String.◌∷◌ c s) = let rest = after n s in if eqb (code c) n then s else rest

-- 58 is the code of the colon
unfoldable pub parse_locator :
    {F : Type 0} → FleetCatalog F → String → Result Fault (FleetNode × String)
parse_locator catalog value = do
  guard (eqb (count_by (λ c. eqb c 58) (codes value)) 1)
      (contract_error "fleet locator must be node_id:run_id")
  let node_id = before 58 value
  let run_id = after 58 value
  guard (is_identifier (codes node_id) && is_run_name (codes run_id))
      (contract_error "fleet locator contains an invalid node or run id")
  node ← fleet_node catalog node_id
  ok (node, run_id)
