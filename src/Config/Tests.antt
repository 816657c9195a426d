-- ===== src/Config/Tests.antt =====
-- Configurations that are read from three environments.
use golang_learning.Prelude.{
  GoString, bytes, ◌==◌, has_prefix, trim_prefix, [], ◌∷◌, none, some, if◌then◌else◌, ◌≡◌, refl,
}
use golang_learning.Config.{
  pos, negsuc, split, split_from, replace_first, digits, atoi, load, parse_addr,
}

abbrev brokers_only : GoString → GoString
brokers_only name = if name == bytes "KAFKA_BOOTSTRAP_SERVERS" then bytes "a:9092,b:9092" else []

two_brokers : (load brokers_only).kafka_brokers ≡ bytes "a:9092" ∷ bytes "b:9092" ∷ []
unfolding load split split_from bytes ◌==◌
two_brokers = refl

-- Without GRPC_PORT the address that is advertised has the default port.
default_addr : (load brokers_only).grpc_advertised_addr ≡ bytes "api:50051"
unfolding load bytes ◌==◌
default_addr = refl

unset : (load (λ name. [])).kafka_brokers ≡ [] ∷ []
unfolding load split split_from
unset = refl

driver_prefix :
    replace_first
      (bytes "postgresql+asyncpg://")
      (bytes "postgresql://")
      (bytes "postgresql+asyncpg://u@db/x")
    ≡ bytes "postgresql://u@db/x"
unfolding replace_first bytes has_prefix trim_prefix
driver_prefix = refl

numbers :
    (atoi (bytes "86400") ≡ some (pos 86400))
    × (atoi (bytes "-5") ≡ some (negsuc 4))
    × (atoi (bytes "1d") ≡ none)
    × (atoi (bytes "9223372036854775808") ≡ none)
unfolding atoi digits bytes
numbers = (refl, refl, refl, refl)

redis_addr : parse_addr (bytes "redis://redis:6379") ≡ bytes "redis:6379"
unfolding parse_addr has_prefix trim_prefix bytes
redis_addr = refl
