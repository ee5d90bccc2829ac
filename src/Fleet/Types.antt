-- ===== src/Fleet/Types.antt =====
-- The dataclasses of src/kernel_infra/fleet.py, and the patterns at its top.
use gpu_infra.Prelude.{ℕ, String, Bool, false, ◌&&◌, ◌||◌, List, [], ◌∷◌, leb, eqb, all, length}
use gpu_infra.Contracts.Values.{id_start, id_char}

pub record FleetNode : Type 0 where
  pub node_id : String
  pub ssh_host : String
  pub kernelctl : String
  pub socket : String
  pub inbox : String
  pub capabilities : List String

pub record FleetCatalog (F : Type 0) : Type 0 where
  pub nodes : List FleetNode
  pub connect_timeout_s : F
  pub command_timeout_s : F
  pub source_path : String
  pub digest : String

pub record FleetEndpoint : Type 0 where
  pub node_id : String
  pub ssh_host : String
  pub kernelctl : String
  pub socket : String

pub record FleetEndpoints : Type 0 where
  pub nodes : List FleetEndpoint
  pub source_path : String

-- `_endpoint_record`
pub record EndpointRecord : Type 0 where
  pub owner : String
  pub source : String
  pub node_id : String
  pub ssh : String
  pub kernelctl : String
  pub socket : String

abbrev is_letter : ℕ → Bool
is_letter c = (leb 97 c && leb c 122) || (leb 65 c && leb c 90)

abbrev is_digit : ℕ → Bool
is_digit c = leb 48 c && leb c 57

-- `[A-Za-z0-9_.@:-]`
abbrev pub ssh_char : ℕ → Bool
ssh_char c = is_letter c || is_digit c || eqb c 95 || eqb c 46 || eqb c 64 || eqb c 58 || eqb c 45

-- `[A-Za-z0-9_./-]`
abbrev pub path_char : ℕ → Bool
path_char c = is_letter c || is_digit c || eqb c 95 || eqb c 46 || eqb c 47 || eqb c 45

-- `_SSH.fullmatch`, the pattern `^[A-Za-z0-9_.@:-]+$`
unfoldable pub is_ssh : List ℕ → Bool
is_ssh [] = false
is_ssh (c ∷ cs) = ssh_char c && all ssh_char cs

-- `_REMOTE_PATH.fullmatch`, the pattern `^/[A-Za-z0-9_./-]+$`
unfoldable pub is_remote_path : List ℕ → Bool
is_remote_path (c ∷ d ∷ cs) = eqb c 47 && (path_char d && all path_char cs)
is_remote_path _ = false

-- `_RUN_ID.fullmatch`, the pattern `^[a-z0-9][a-z0-9._-]{0,127}$`
unfoldable pub is_run_name : List ℕ → Bool
is_run_name [] = false
is_run_name (c ∷ cs) = id_start c && leb (length cs) 127 && all id_char cs
