-- ===== src/Serverless/Api.antt =====
-- Tiles and their text form (serverless/api/state.go).
pub mod TileText
use trillian_serverless.Base.{
  ℕ, String, not, List, [], ◌∷◌, ◌++◌, Option, none, some, Result, ok, err, ◌>>=◌, ◌>>◌, expect,
  fail_if, ◌==◌, Bytes, get_elem?, drop,
}
use trillian_serverless.Std.Base64.{encode, decode}
use trillian_serverless.Std.Lines.{newline, split_lines, trim_space}
use trillian_serverless.Std.Numbers.{format_uint, parse_uint}

-- A node that was never set is nil (`none`), which is not the empty hash.
pub record Tile : Type 0 where
  pub num_leaves : ℕ
  pub nodes : List (Option Bytes)

-- How `UnmarshalText` ends without a tile; `panic` is the read of a second line that is not there.
pub data TextError : Type 0 where
  bad_hash_size wrong_hash_size bad_num_leaves bad_node panic : TextError

-- The bytes of a node: nil reads as no bytes.
abbrev pub node_bytes : Option Bytes → Bytes
node_bytes none = []
node_bytes (some h) = h

unfoldable pub marshal_nodes : List (Option Bytes) → Bytes
marshal_nodes [] = []
marshal_nodes (n ∷ ns) = encode (node_bytes n) ++ newline ∷ marshal_nodes ns

-- Writing to a `bytes.Buffer` does not fail.
unfoldable pub marshal_text : Tile → Bytes
unfolding marshal_nodes
marshal_text t =
    format_uint 10 32 ++ newline ∷ (format_uint 10 t.num_leaves ++ newline ∷ marshal_nodes t.nodes)

abbrev add_node :
    Option Bytes → Result TextError (List (Option Bytes)) → Result TextError (List (Option Bytes))
add_node none rest = err bad_node
add_node (some h) (ok ns) = ok (some h ∷ ns)
add_node (some h) (err e) = err e

-- The loop over the lines from the third on.
unfoldable pub unmarshal_nodes : List Bytes → Result TextError (List (Option Bytes))
unmarshal_nodes [] = ok []
unmarshal_nodes (l ∷ ls) = add_node (decode l) (unmarshal_nodes ls)

unfoldable pub unmarshal_text : Bytes → Result TextError Tile
unfolding unmarshal_nodes
unmarshal_text raw = do
  let lines = split_lines (trim_space raw)
  first ← expect (get_elem? lines 0) panic
  hs ← expect (parse_uint 10 16 first) bad_hash_size
  fail_if (not (hs == 32)) wrong_hash_size
  second ← expect (get_elem? lines 1) panic
  num_leaves ← expect (parse_uint 10 16 second) bad_num_leaves
  nodes ← unmarshal_nodes (drop 2 lines)
  ok (record { num_leaves = num_leaves; nodes = nodes })
