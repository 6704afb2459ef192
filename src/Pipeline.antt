-- ===== src/Pipeline.antt =====
-- `crates/carriers-core/src/pipeline.rs` and `sign.rs`: the data that the pipeline passes to the
-- daemon. A remote address is its printed form.
pub mod Steps
pub mod Distribution
pub mod Admission
pub mod Queueing
pub mod Retry
mod Tests
use carriers.Base.{ℕ, Text, Bytes, Option, List}

pub record Ingress : Type 0 where
  pub remote_ip : Text
  pub helo : Text
  pub mail_from : Text

pub record Prepared : Type 0 where
  pub message : Bytes
  pub recipients : List Text
  pub return_path_local : Text
  pub list_domain : Text
  pub dkim2_original : Option Bytes

-- What the pipeline decided to do with an inbound post.
pub data Disposition : Type 0 where
  distribute : Prepared → Disposition
  held : ℕ → Disposition
  discarded : Text → Disposition
  rejected : Text → Disposition
