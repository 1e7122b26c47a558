-- ===== src/Ip.antt =====
-- `std::net::Ipv4Addr`: four octets.
use nullgate.Common.{ℕ, ◌≡◌, ◌↔◌, Bool, ◌&&◌, arith, ◌==◌}

pub record Ipv4Addr : Type 0 where
  pub o0 : ℕ
  pub o1 : ℕ
  pub o2 : ℕ
  pub o3 : ℕ

abbrev pub ip_eq : Ipv4Addr → Ipv4Addr → Bool
ip_eq a b = a.o0 == b.o0 && a.o1 == b.o1 && a.o2 == b.o2 && a.o3 == b.o3

pub ip_eq_iff : (a b : Ipv4Addr) → (ip_eq a b ≡ Bool.true) ↔ (a ≡ b)
ip_eq_iff a b = ground arith
