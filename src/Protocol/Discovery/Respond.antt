-- ===== src/Protocol/Discovery/Respond.antt =====
-- The response of a configuration server, and what the parser makes of its line of nodes.
use emcache.Prelude.{
  ℕ, ◌≡◌, refl, ◌≢◌, ◌<◌, All-append, All-imp, sym, ap, ◌∙◌, arith, false, some, List, [], ◌∷◌,
  ◌++◌, Bytes, codes, All, length, ℤ, pos, map,
}
use mathlib.Core.List.{append_assoc, append-nil}
use emcache.Decimal.{show}
use emcache.Decimal.RoundTrip.{IsDigit, show-All, int_of-show}
use emcache.Protocol.Text.{join, split_on, split_on-Lacks, split_on-append}
use emcache.Protocol.Discovery.{
  Text, Discovery, is_text_space, non_empty, split_text, node_of, add_nodes,
}
use emcache.Protocol.Discovery.Blanks.{split_blanks-join}

-- A node as the configuration server advertises it.
pub record Advertised : Type 0 where
  pub host : Bytes
  pub ip : Bytes
  pub port : ℕ

abbrev pub IsNameByte : ℕ → Type 0
IsNameByte c = (c < 128) × (is_text_space c ≡ false) × (c ≢ 124)

-- ASCII, no blank and no bar.
pub record IsNamed (a : Advertised) : Type 0 where
  pub host : All IsNameByte a.host
  pub ip : All IsNameByte a.ip

-- "host|ip|port".
unfoldable pub item_text : Advertised → Bytes
item_text a = a.host ++ (124 ∷ (a.ip ++ (124 ∷ show a.port)))

-- "<version>\n<node> <node> ...".
unfoldable pub config_lines : ℕ → List Advertised → Bytes
unfolding item_text
config_lines version nodes = show version ++ (10 ∷ join (codes " ") (map item_text nodes))

-- "CONFIG cluster 0 <size>\r\n<lines>\n\r\nEND\r\n".
unfoldable pub respond : ℕ → List Advertised → Bytes
unfolding config_lines
respond version nodes =
    let body = config_lines version nodes ++ 10 ∷ [] in
    codes "CONFIG cluster 0 "
    ++ (show (length body) ++ (codes "\r\n" ++ (body ++ codes "\r\nEND\r\n")))

abbrev pub discovered : Advertised → Text × Text × ℤ
discovered a = (a.host, a.ip, pos a.port)

-- What the bytes of a line of nodes have in common.
abbrev pub IsItemByte : ℕ → Type 0
IsItemByte c = (c < 128) × (is_text_space c ≡ false)

pub IsDigit-IsItemByte : (c : ℕ) → IsDigit c → IsItemByte c
unfolding is_text_space
IsDigit-IsItemByte c h = ground arith

pub item_text-All : (a : Advertised) → IsNamed a → All IsItemByte (item_text a)
unfolding item_text is_text_space
item_text-All a n =
    let weaken : (c : ℕ) → IsNameByte c → IsItemByte c = λ c h. (h.0, h.1) in
    All-append IsItemByte a.host _ (All-imp IsNameByte IsItemByte a.host weaken n.host) (
      (omega arith, refl),
      All-append IsItemByte a.ip _ (All-imp IsNameByte IsItemByte a.ip weaken n.ip) (
        (omega arith, refl),
        All-imp IsDigit IsItemByte (show a.port) IsDigit-IsItemByte (show-All a.port),
      ),
    )

pub node_of-item_text :
    (a : Advertised) → IsNamed a → node_of (split_on 124 (item_text a)) ≡ some (discovered a)
unfolding item_text node_of
node_of-item_text a n =
    let bars = λ (c : ℕ) (h : IsNameByte c). h.2 in
    rw
      (
        split_on-append 124 a.host (a.ip ++ (124 ∷ show a.port))
            (All-imp IsNameByte _ a.host bars n.host),
        split_on-append 124 a.ip (show a.port) (All-imp IsNameByte _ a.ip bars n.ip),
        split_on-Lacks 124 (show a.port)
            (All-imp IsDigit _ (show a.port) (λ c h. ground arith) (show-All a.port)),
      )
      (rw (int_of-show a.port, node_of) refl)

pub add_nodes-items :
    (p : Discovery) (nodes : List Advertised)
    → All IsNamed nodes
    → add_nodes p (map item_text nodes) ≡ (record p { nodes = p.nodes ++ map discovered nodes })
unfolding add_nodes
add_nodes-items p [] n = simp append-nil
add_nodes-items p (a ∷ nodes) n =
    rw (node_of-item_text a n.0, add_nodes)
      (rw (append_assoc p.nodes (discovered a ∷ []) (map discovered nodes)) at
        (add_nodes-items (record p { nodes = p.nodes ++ discovered a ∷ [] }) nodes n.1))

pub non_empty-cons :
    (w s : Bytes) (c : ℕ) (ws : List Bytes)
    → non_empty ((w ++ c ∷ s) ∷ ws) ≡ (w ++ c ∷ s) ∷ non_empty ws
unfolding non_empty
non_empty-cons [] s c ws = refl
non_empty-cons (d ∷ w) s c ws = refl

pub non_empty-items :
    (nodes : List Advertised) → non_empty (map item_text nodes) ≡ map item_text nodes
unfolding item_text
non_empty-items [] = unfold non_empty in refl
non_empty-items (a ∷ nodes) =
    non_empty-cons a.host (a.ip ++ (124 ∷ show a.port)) 124 (map item_text nodes)
    ∙ ap (◌∷◌ (item_text a)) (non_empty-items nodes)

-- The line of the nodes.
abbrev pub line_of : List Advertised → Bytes
line_of nodes = join (codes " ") (map item_text nodes)

pub items-All :
    (P : ℕ → Type 0) (nodes : List Advertised)
    → ((c : ℕ) → IsItemByte c → P c)
    → All IsNamed nodes
    → All (All P) (map item_text nodes)
items-All P [] f n = tt
items-All P (a ∷ nodes) f n =
    (All-imp IsItemByte P (item_text a) f (item_text-All a n.0), items-All P nodes f n.1)

pub join-All :
    (P : ℕ → Type 0) (ws : List Bytes) → P 32 → All (All P) ws → All P (join (codes " ") ws)
unfolding join
join-All P [] b h = tt
join-All P (w ∷ []) b h = h.0
join-All P (w ∷ v ∷ ws) b h = All-append P w _ h.0 (b, join-All P (v ∷ ws) b h.1)

-- ASCII, and neither a newline nor a CR.
abbrev pub IsLineByte : ℕ → Type 0
IsLineByte c = (c < 128) × (c ≢ 10) × (c ≢ 13)

pub IsItemByte-IsLineByte : (c : ℕ) → IsItemByte c → IsLineByte c
unfolding is_text_space
IsItemByte-IsLineByte c h = ground (arith, h.0, h.1)

pub line_of-All : (nodes : List Advertised) → All IsNamed nodes → All IsLineByte (line_of nodes)
line_of-All nodes n =
    join-All IsLineByte (map item_text nodes) (omega arith)
      (items-All IsLineByte nodes IsItemByte-IsLineByte n)

pub split_text-line_of :
    (a : Advertised) (nodes : List Advertised)
    → All IsNamed (a ∷ nodes)
    → split_text (line_of (a ∷ nodes)) ≡ map item_text (a ∷ nodes)
unfolding split_text
split_text-line_of a nodes n =
    ap non_empty (
      split_blanks-join (item_text a) (map item_text nodes)
        (items-All (λ c. is_text_space c ≡ false) (a ∷ nodes) (λ c h. h.1) n))
    ∙ non_empty-items (a ∷ nodes)

pub line_of-ends :
    (a : Advertised) (nodes : List Advertised)
    → (s : Bytes) × (port : ℕ) × (line_of (a ∷ nodes) ≡ s ++ show port)
unfolding join item_text
line_of-ends a [] = (
  a.host ++ (124 ∷ (a.ip ++ 124 ∷ [])),
  a.port,
  sym (
      append_assoc a.host (124 ∷ (a.ip ++ 124 ∷ [])) (show a.port)
      ∙ ap (λ x. a.host ++ (124 ∷ x)) (append_assoc a.ip (124 ∷ []) (show a.port))),
)
line_of-ends a (b ∷ nodes) =
    let (s, port, e) = line_of-ends b nodes in
    (
      item_text a ++ (32 ∷ s),
      port,
      ap (λ x. item_text a ++ (32 ∷ x)) e ∙ sym (append_assoc (item_text a) (32 ∷ s) (show port)),
    )
