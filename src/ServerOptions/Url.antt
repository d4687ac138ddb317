-- ===== src/ServerOptions/Url.antt =====
-- The endpoint URLs of src/server_options.cpp tell the endpoints of accepted options apart.
use rtt_opcua.Base.{
  ℕ, ◌^◌, ◌<◌, ◌≡◌, refl, sym, ap, ◌∙◌, ◌≢◌, inl, inr, [], ◌∷◌, ◌++◌, arith, All, Bytes, codes,
  has_byte, decimal, read_back, read_back-decimal, decimal_plain,
}
use rtt_opcua.ServerOptions.Accepted.{IsAccepted, has_byte_iff, IsServed}
use rtt_opcua.ServerOptions.{ServerOptions, endpoint_url}

cut_at_slash :
    (s t p q : Bytes)
    → All (λ c. c ≢ b'/') s
    → All (λ c. c ≢ b'/') t
    → s ++ (b'/' ∷ p) ≡ t ++ (b'/' ∷ q)
    → (s ≡ t) × (p ≡ q)
cut_at_slash [] [] p q h k e = (refl, cc)
cut_at_slash [] (c ∷ t) p q h k e = absurd (k.0 (cc))
cut_at_slash (c ∷ s) [] p q h k e = absurd (h.0 (cc))
cut_at_slash (c ∷ s) (d ∷ t) p q h k e =
    let (same, rest) = cut_at_slash s t p q h.1 k.1 (cc) in (cc, rest)

append_cancel : (s p q : Bytes) → s ++ p ≡ s ++ q → p ≡ q
append_cancel [] p q e = e
append_cancel (c ∷ s) p q e = append_cancel s p q (cc)

All-join :
    (s t : Bytes) → All (λ c. c ≢ b'/') s → All (λ c. c ≢ b'/') t → All (λ c. c ≢ b'/') (s ++ t)
All-join [] t h k = k
All-join (c ∷ s) t h k = (h.0, All-join s t h.1 k)

-- The host and the colon, for each address that is served.
abbrev host_of : (address : Bytes) → IsServed address → Bytes
host_of address (inl e) = codes "127.0.0.1:"
host_of address (inr (inl e)) = codes "[::1]:"
host_of address (inr (inr e)) = codes "0.0.0.0:"

host_plain : (address : Bytes) (a : IsServed address) → All (λ c. c ≢ b'/') (host_of address a)
unfolding has_byte
host_plain address (inl e) = (has_byte_iff b'/' (codes "127.0.0.1:")).0 refl
host_plain address (inr (inl e)) = (has_byte_iff b'/' (codes "[::1]:")).0 refl
host_plain address (inr (inr e)) = (has_byte_iff b'/' (codes "0.0.0.0:")).0 refl

endpoint_url_of :
    (o : ServerOptions) (a : IsServed o.bind_address) (rest : Bytes)
    → o.endpoint_path ≡ b'/' ∷ rest
    → endpoint_url o
      ≡ codes "opc.tcp://" ++ ((host_of o.bind_address a ++ decimal 5 o.port) ++ (b'/' ∷ rest))
unfolding endpoint_url has_byte
endpoint_url_of o (inl e) rest f = rw (e, f) refl
endpoint_url_of o (inr (inl e)) rest f = rw (e, f) refl
endpoint_url_of o (inr (inr e)) rest f = rw (e, f) refl

first_eq : (c d : ℕ) (s t : Bytes) → c ∷ s ≡ d ∷ t → c ≡ d
first_eq c d s t e = cc

same_endpoint :
    (x y s t : Bytes) (a : IsServed x) (b : IsServed y)
    → host_of x a ++ s ≡ host_of y b ++ t
    → (x ≡ y) × (s ≡ t)
same_endpoint x y s t (inl e) (inl f) h = (cc, append_cancel (codes "127.0.0.1:") s t h)
same_endpoint x y s t (inr (inl e)) (inr (inl f)) h = (cc, append_cancel (codes "[::1]:") s t h)
same_endpoint x y s t (inr (inr e)) (inr (inr f)) h = (cc, append_cancel (codes "0.0.0.0:") s t h)
same_endpoint x y s t (inl e) (inr (inl f)) h = absurd (omega (arith, first_eq _ _ _ _ h))
same_endpoint x y s t (inl e) (inr (inr f)) h = absurd (omega (arith, first_eq _ _ _ _ h))
same_endpoint x y s t (inr (inl e)) (inl f) h = absurd (omega (arith, first_eq _ _ _ _ h))
same_endpoint x y s t (inr (inl e)) (inr (inr f)) h = absurd (omega (arith, first_eq _ _ _ _ h))
same_endpoint x y s t (inr (inr e)) (inl f) h = absurd (omega (arith, first_eq _ _ _ _ h))
same_endpoint x y s t (inr (inr e)) (inr (inl f)) h = absurd (omega (arith, first_eq _ _ _ _ h))

-- Two accepted options with 16-bit ports that have the same URL have the same address, port and
-- path.
pub endpoint_url_injective :
    (o p : ServerOptions)
    → IsAccepted o
    → IsAccepted p
    → o.port < 2 ^ 16
    → p.port < 2 ^ 16
    → endpoint_url o ≡ endpoint_url p
    → (o.bind_address ≡ p.bind_address) × (o.port ≡ p.port) × (o.endpoint_path ≡ p.endpoint_path)
endpoint_url_injective o p a b small_o small_p e =
    let (left, right) =
      cut_at_slash (host_of o.bind_address a.address ++ decimal 5 o.port)
        (host_of p.bind_address b.address ++ decimal 5 p.port) a.path.0 b.path.0
        (All-join _ _ (host_plain o.bind_address a.address) (decimal_plain 5 o.port))
        (All-join _ _ (host_plain p.bind_address b.address) (decimal_plain 5 p.port))
        (append_cancel (codes "opc.tcp://") _ _ (
          sym (endpoint_url_of o a.address a.path.0 a.path.1)
          ∙ (e ∙ endpoint_url_of p b.address b.path.0 b.path.1))) in
    let (address, digits) = same_endpoint _ _ _ _ a.address b.address left in
    let port : o.port ≡ p.port =
      sym (read_back-decimal 5 o.port (omega arith))
      ∙ (ap (read_back 0) digits ∙ read_back-decimal 5 p.port (omega arith)) in
    (address, port, a.path.1 ∙ (ap (λ (r : Bytes). b'/' ∷ r) right ∙ sym b.path.1))
