-- ===== src/ContextBroker.antt =====
-- internal/contextbroker/packer.go: the data of the context packer.
-- `Score`, which the packer carries along and never reads, is left out.
pub mod Packer
pub mod Fetcher
use gigi_dc.Prelude.{ℕ, String, Bool, List}

pub record Snippet : Type 0 where
  pub id : String
  pub source : String
  pub channel_id : String
  pub author_id : String
  pub text : String
  pub created_at : String
  pub pinned : Bool
  pub stale : Bool

-- `SessionState.Seen`: the fingerprint under which a source was last packed.
abbrev pub Seen : Type 0
Seen = List (String × String)

pub record BuildRequest : Type 0 where
  pub snippets : List Snippet
  pub previous : Seen
  pub max_chars : ℕ

pub data ContextStatus : Type 0 where
  new changed pinned omit_unchanged omit_budget invalidate_previous : ContextStatus

pub record Citation : Type 0 where
  pub label : String
  pub source_id : String
  pub snippet_id : String
  pub source : String
  pub created_at : String

pub record ContextItem : Type 0 where
  pub status : ContextStatus
  pub source_id : String
  pub snippet : Snippet
  pub citation : Citation
  pub restore_handle : String
  pub chars : ℕ
  pub pinned : Bool
  pub stale_previous : Bool
  pub stale : Bool

pub record OmittedContext : Type 0 where
  pub status : ContextStatus
  pub source_id : String
  pub restore_handle : String
  pub reason : String

pub record ContextInvalidation : Type 0 where
  pub status : ContextStatus
  pub source_id : String
  pub previous_fingerprint : String
  pub current_fingerprint : String
  pub restore_handle : String

pub record Pack : Type 0 where
  pub snippets : List Snippet
  pub items : List ContextItem
  pub omitted : List OmittedContext
  pub invalidations : List ContextInvalidation
  pub citations : List Citation
  pub chars : ℕ
  pub truncated : Bool
  pub next_state : Seen
