-- ===== src/Proxy/Headers/Kept.antt =====
-- Which headers the filters of server/src/proxy.rs keep.
use keychute.Prelude.{
  ◌≡◌, ◌⊎◌, inl, inr, false, Option, List, [], ◌∷◌, Text, one_of, arith, In, In-keep,
}
use keychute.Proxy.Headers.{
  HeaderMap, insert_all, build_outbound_headers, connection_named, is_stripped,
}

pub insert_all-In :
    (inj out : HeaderMap) (h : Text × Text) → In h (insert_all inj out) → In h inj ⊎ In h out
unfolding insert_all
insert_all-In [] out h i = inr i
insert_all-In (x ∷ inj) out h i = elim (insert_all-In inj _ h i) [
  | inl j ↦ inl (inr j)
  | inr (inl e) ↦ inl (inl e)
  | inr (inr j) ↦ inr (In-keep _ out h j).0
]

pub outbound-kept :
    (to_str : Text → Option Text) (caller : HeaderMap) (inj : List Text) (h : Text × Text)
    → In h (build_outbound_headers to_str caller inj)
    → In h caller
      × (is_stripped h.0 ≡ false)
      × (one_of (connection_named to_str caller) h.0 ≡ false)
      × (one_of inj h.0 ≡ false)
unfolding build_outbound_headers
outbound-kept to_str caller inj h i =
    let (j, q) = In-keep _ caller h i in
    (j, ground (arith, q), ground (arith, q), ground (arith, q))
