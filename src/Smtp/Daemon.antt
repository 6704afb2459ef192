-- ===== src/Smtp/Daemon.antt =====
-- The parts of the daemon put together: what `crates/carriers/src/smtp.rs` calls, as the pipeline,
-- the delivery and the store do it.
use carriers.Base.{Bytes, Option, ok}
use carriers.Base.Maybe.{is_some}
use carriers.Deliver.{SmtpClient, deliver}
use carriers.Pipeline.Steps.{World, Platform, Mail, intake, finalize}
use carriers.Policy.{PolicyEngine}
use carriers.SieveEngine.{Sieve}
use carriers.Sign.{MailAuth}
use carriers.Smtp.{Services, Request}
use carriers.State.{AppState}
use carriers.Store.{Score, record_bounce}

-- The crates that the daemon runs on.
pub record Crates (F Key : Type 0) : Type 1 where
  pub mail_auth : MailAuth Key
  pub parse_mail : Bytes → Option Mail
  pub parse_command : Bytes → Option Request
  pub client : SmtpClient (World F)

module _ {F Key : Type 0} (crates : Crates F Key) (sieve : Sieve) (policy : PolicyEngine sieve)
    (state : AppState F Key) where
  abbrev pub platform : Platform Key
  platform = record {
    sieve = sieve;
    engine = policy;
    mail_auth = crates.mail_auth;
    parse = crates.parse_mail;
    hostname = state.config.hostname;
    has_archive = is_some state.config.archive_dir;
  }

  unfoldable pub daemon : ⦃score : Score F⦄ → Services F Key (World F)
  unfolding intake finalize deliver record_bounce
  daemon = record {
    parse = crates.parse_command;
    intake = intake platform;
    finalize = finalize platform;
    deliver = λ list prepared.
        deliver crates.mail_auth crates.client list state.config.smarthost prepared;
    record_bounce = λ list address weight threshold w.
        let (disabled, db) = record_bounce list address weight threshold w.now w.db in
        (ok disabled, record w { db = db });
  }
