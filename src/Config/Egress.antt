-- ===== src/Config/Egress.antt =====
-- internal/config/file.go: what an egress answers about itself, and the two keys derived from it.
use ocfp.Prelude.{
  ◌≡◌, Bool, true, false, Option, none, some, [], ◌∷◌, ◌++◌, Bytes, bytes, arith, has_control_byte,
}
use ocfp.Prelude.Int.{ℤ}
use ocfp.Config.File.{Egress, Proxy, default_weight}

-- *p where p is set, and a default where it is nil
abbrev pub deref_or {ℓ} : {A : Type ℓ} → Option A → A → A
deref_or none d = d
deref_or (some a) d = a

abbrev pub is_enabled : Egress → Bool
is_enabled e = deref_or e.enabled true

abbrev pub accepts_streaming : Egress → Bool
accepts_streaming e = deref_or e.streaming true

abbrev pub effective_weight : Egress → ℤ
effective_weight e = deref_or e.weight default_weight

proxy_signature : Option Proxy → Bytes
proxy_signature none = bytes "direct"
proxy_signature (some p) = p.type ++ b':' ∷ p.url

unfoldable pub transport_signature : Egress → Bytes
unfolding proxy_signature
transport_signature e = proxy_signature e.proxy

unfoldable pub health_key : Egress → Bytes
health_key e = e.id ++ 0 ∷ transport_signature e

-- A text with no control byte ends at the first NUL that follows it.
pub split_at_nul :
    (s t u v : Bytes)
    → has_control_byte s ≡ false
    → has_control_byte t ≡ false
    → s ++ 0 ∷ u ≡ t ++ 0 ∷ v
    → (s ≡ t) × (u ≡ v)
unfolding has_control_byte
split_at_nul [] [] u v hs ht e = ground arith
split_at_nul [] (b ∷ t) u v hs ht e = ground arith
split_at_nul (a ∷ s) [] u v hs ht e = ground arith
split_at_nul (a ∷ s) (b ∷ t) u v hs ht e = ground (arith, split_at_nul s t u v)

-- Two egresses whose ids hold no control byte and whose health keys are equal have the
-- same id and the same transport signature.
pub health_key_injective :
    (d e : Egress)
    → has_control_byte d.id ≡ false
    → has_control_byte e.id ≡ false
    → health_key d ≡ health_key e
    → (d.id ≡ e.id) × (transport_signature d ≡ transport_signature e)
unfolding health_key
health_key_injective d e hd he h =
    split_at_nul d.id e.id (transport_signature d) (transport_signature e) hd he h
