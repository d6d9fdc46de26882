-- ===== src/Database/Models.antt =====
-- backend/pkg/database/models.go: the rows that the modelled components read and write. A time is a
-- number of nanoseconds.
use cargobay.Prelude.{ℕ, String, Bool, Option, List}
use cargobay.Prelude.GoMap.{GoMap}

-- what an `any` of an artifact's metadata holds, as far as the program reads it
pub data MetadataValue : Type 0 where
  text : String → MetadataValue
  -- childManifests of the docker proxy: digest, size, operating system and architecture
  children : List (String × ℕ × String × String) → MetadataValue
  other : MetadataValue

pub record Signature : Type 0 where
  pub type : String
  pub key_id : String
  pub timestamp : ℕ
  pub verified : Bool

pub record ArtifactMetadata : Type 0 where
  pub id : String
  pub registry_id : String
  pub artifact_type : String
  pub namespace : String
  pub artifact_name : String
  pub version : String
  pub digest : String
  pub digest_algorithm : String
  pub size : ℕ
  pub total_size : ℕ
  pub created : ℕ
  pub updated : ℕ
  pub metadata : GoMap MetadataValue
  pub tags : List String
  pub signatures : List Signature
  pub downloads : ℕ
  pub bandwidth_saved : ℕ

pub record UserRepository : Type 0 where
  pub user_id : String
  pub username : String
  pub email : String
  pub password_hash : String
  pub roles : List String
  pub created_at : ℕ
  pub last_login : Option ℕ
  pub is_active : Bool
  pub timezone : String

pub record AccessKey : Type 0 where
  pub id : String
  pub user_id : String
  pub name : String
  pub key_hash : String
  pub permissions : List String
  pub created_at : ℕ
  pub last_used : Option ℕ
  pub expires_at : Option ℕ
  pub is_active : Bool
  pub key_type : String
  pub description : String

pub record RegistryConfig : Type 0 where
  pub id : String
  pub name : String
  pub url : String
  pub type : String
  pub proxy : Bool
  pub enabled : Bool
  pub priority : ℕ
  pub private : Bool
  pub host : String
  pub upstream_auth_type : String
  pub upstream_username : String
  pub upstream_secret : String
  pub has_upstream_secret : Bool
  pub members : List String

pub record RegistryAccess : Type 0 where
  pub registry_id : String
  pub user_id : String
  pub can_read : Bool
  pub can_publish : Bool
  pub granted_at : ℕ

pub record Group : Type 0 where
  pub id : String
  pub name : String
  pub description : String
  pub created_at : ℕ

pub record GroupRegistryAccess : Type 0 where
  pub registry_id : String
  pub group_id : String
  pub can_read : Bool
  pub can_publish : Bool
  pub granted_at : ℕ
