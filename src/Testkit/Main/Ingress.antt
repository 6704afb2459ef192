-- ===== src/Testkit/Main/Ingress.antt =====
-- The address of a harness, as `send` in `crates/carriers-testkit/src/main.rs` reads it.
use carriers.Base.{
  ◌<◌, Text, true, false, [], ◌∷◌, all, show, is_digit, all-digits, parse_u16-show, contains_char,
  yields, nat_eq, arith, ◌≡◌, refl,
}
use carriers.Testkit.Harness.{Harness, ingress}
use carriers.Testkit.Main.{split_hostport}
use carriers.Verp.RoundTrip.{rsplit_once-append}

all-colon : (s : Text) → all is_digit s ≡ true → contains_char b':' s ≡ false
unfolding contains_char
all-colon [] h = refl
all-colon (c ∷ s) h = ground (arith, all-colon s)

-- The address that a harness prints of itself is read back as its host and its port, whatever the
-- host is, if the port is one of 16 bits.
pub split_hostport-ingress :
    {W : Type 0} (h : Harness W)
    → h.ingress_port < 65536
    → split_hostport (ingress h) ≡ yields (h.ingress_host, h.ingress_port)
unfolding split_hostport ingress
split_hostport-ingress h l =
    rw
      (
        split_hostport,
        rsplit_once-append b':' h.ingress_host (show h.ingress_port)
            (all-colon (show h.ingress_port) (all-digits h.ingress_port h.ingress_port)),
        parse_u16-show h.ingress_port l,
      )
      refl
