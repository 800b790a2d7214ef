-- ===== src/Huffman.antt =====
-- Huffman Coding and Compression/huffman.{h,c}. An array is the list of its elements, and a tree is
-- a value: no node is reached by two pointers. A byte is a number below 256. A fault is an access
-- past the end of an array or through NULL, and stands for the end of the fuel of a loop as well.
-- `qsort` and the content of fresh memory are arguments; files and printing are outside the model.
pub mod Bits
pub mod Trees
pub mod Heap
pub mod Inserts
pub mod Builds
pub mod Roots
pub mod Codes
pub mod Paths
pub mod Walks
pub mod Encodes
pub mod Bitcodes
pub mod Messages
pub mod Decodes
pub mod Dictionaries
pub mod Program
pub mod Tests
use Prim.Native.Nat.{bit_and, bit_or}
use system_programming_and_d.Base.{
  ℕ, zero, suc, ◌+◌, ◌-◌, ◌*◌, ◌/◌, ◌%◌, ◌^◌, Bool, true, false, ◌&&◌, List, [], ◌∷◌, ◌++◌, map,
  length, ltb, ◌==◌, if◌then◌else◌, replicate, Outcome, ok, fault, ◌>>=◌, load, store,
}

abbrev pub dict_size : ℕ
dict_size = 256

-- `1 << (8 - pos - 1)`
abbrev pub mask_of : ℕ → ℕ
mask_of index = 2 ^ (8 - index % 8 - 1)

unfoldable pub set_bit : List ℕ → ℕ → Outcome (List ℕ)
unfolding load store
set_bit bytes index = do
  x ← load bytes (index / 8)
  store bytes (index / 8) (bit_or x (mask_of index))

unfoldable pub clear_bit : List ℕ → ℕ → Outcome (List ℕ)
unfolding load store
clear_bit bytes index = do
  x ← load bytes (index / 8)
  store bytes (index / 8) (bit_and x (255 - mask_of index))

unfoldable pub get_bit : List ℕ → ℕ → Outcome ℕ
unfolding load
get_bit bytes index = do
  x ← load bytes (index / 8)
  ok (if bit_and x (mask_of index) == 0 then 0 else 1)

-- struct tree_node: key, frequency, left and right; `nil` is NULL.
pub data Tree : Type 0 where
  nil : Tree
  node : ℕ → ℕ → Tree → Tree → Tree

-- struct huff_tree: `nodes` has dict_size places.
pub record HuffTree : Type 0 where
  pub size : ℕ
  pub nodes : List Tree

unfoldable pub init_nodes : List ℕ → List ℕ → ℕ → ℕ → List Tree → Outcome (List Tree)
unfolding load store
init_nodes key freq i zero nodes = ok nodes
init_nodes key freq i (suc left) nodes = do
  k ← load key i
  f ← load freq i
  nodes' ← store nodes i (node k f nil nil)
  init_nodes key freq (i + 1) left nodes'

unfoldable pub tree_init : List ℕ → List ℕ → ℕ → Outcome HuffTree
unfolding init_nodes
tree_init key freq size = do
  nodes ← init_nodes key freq 0 size (replicate dict_size nil)
  ok (record { size = size; nodes = nodes })

unfoldable pub freq_of : Tree → Outcome ℕ
freq_of nil = fault
freq_of (node k f l r) = ok f

unfoldable pub freq_at : HuffTree → ℕ → Outcome ℕ
unfolding load freq_of
freq_at t i = load t.nodes i >>= freq_of

-- The child if it exists and is smaller, else the minimum so far.
unfoldable pub smaller : HuffTree → ℕ → ℕ → Outcome ℕ
unfolding freq_at
smaller t child minimum =
    if ltb child t.size
    then (do x ← freq_at t child; y ← freq_at t minimum; ok (if ltb x y then child else minimum))
    else ok minimum

unfoldable pub exchange : HuffTree → ℕ → ℕ → Outcome HuffTree
unfolding load store
exchange t minimum i = do
  temp ← load t.nodes minimum
  x ← load t.nodes i
  nodes ← store t.nodes minimum x
  nodes' ← store nodes i temp
  ok (record t { nodes = nodes' })

unfoldable pub update_tree_helper : ℕ → HuffTree → ℕ → ℕ → ℕ → Outcome HuffTree
unfolding smaller exchange
update_tree_helper zero t left right i = fault
update_tree_helper (suc f) t left right i = do
  m ← smaller t right i
  minimum ← smaller t left m
  let down = exchange t minimum i >>= λ t'.
      update_tree_helper f t' (2 * minimum + 1) (2 * minimum + 2) minimum
  (if minimum == i then ok t else down)

-- Each call goes down a level of the `size` nodes.
unfoldable pub update_tree : HuffTree → Outcome HuffTree
unfolding update_tree_helper
update_tree t = update_tree_helper (t.size + 1) t 1 2 0

unfoldable pub get_mini_freq_node : HuffTree → Outcome (Tree × HuffTree)
unfolding load store update_tree
get_mini_freq_node t = do
  temp ← load t.nodes 0
  last ← load t.nodes (t.size - 1)
  nodes ← store t.nodes 0 last
  t' ← update_tree (record { size = t.size - 1; nodes = nodes })
  ok (temp, t')

-- The loop of insert_huff_tree, for the new frequency: the place for the new node, and the nodes.
unfoldable pub find_place : ℕ → ℕ → ℕ → Tree → List Tree → Outcome (ℕ × List Tree)
unfolding load store freq_of
find_place zero sum i parent nodes = fault
find_place (suc f) sum i parent nodes = do
  p ← freq_of parent
  let rise : Outcome (ℕ × List Tree) = do
    nodes' ← store nodes i parent
    let up = load nodes' (((i - 1) / 2 - 1) / 2) >>= λ parent'.
        find_place f sum ((i - 1) / 2) parent' nodes'
    (if (i - 1) / 2 == 0 then ok (i, nodes') else up)
  (if ltb sum p then rise else ok (i, nodes))

-- For the index 0, `(i - 1) / 2` is 0 in C as well.
unfoldable pub insert_huff_tree : HuffTree → Tree → Tree → ℕ → Outcome HuffTree
unfolding load store find_place
insert_huff_tree t right left sum = do
  parent ← load t.nodes ((t.size - 1) / 2)
  (i, nodes) ← find_place (t.size + 1) sum t.size parent t.nodes
  nodes' ← store nodes i (node 1 sum left right)
  ok (record { size = t.size + 1; nodes = nodes' })

-- A round of create_huffman_tree; the sum is a uint64_t.
unfoldable pub merge_least : HuffTree → Outcome HuffTree
unfolding get_mini_freq_node freq_of insert_huff_tree
merge_least t = do
  (right, t1) ← get_mini_freq_node t
  (left, t2) ← get_mini_freq_node t1
  x ← freq_of left
  y ← freq_of right
  insert_huff_tree t2 right left ((x + y) % 2 ^ 64)

unfoldable pub build : ℕ → HuffTree → Outcome HuffTree
unfolding merge_least
build zero t = if ltb 1 t.size then fault else ok t
build (suc f) t = let rest = merge_least t >>= build f in if ltb 1 t.size then rest else ok t

-- Each round leaves a node less.
unfoldable pub create_huffman_tree : List ℕ → List ℕ → ℕ → Outcome Tree
unfolding tree_init build load
create_huffman_tree key freq size = do
  t ← tree_init key freq size
  t' ← build size t
  load t'.nodes 0

-- struct freq_node
pub record FreqNode : Type 0 where
  pub key : ℕ
  pub value : ℕ
  pub bit_array : List ℕ
  pub length : ℕ
  pub n_padding : ℕ

-- `freq[arr[i]] += 1` on uint64_t
unfoldable pub calculate_frequency : List ℕ → List ℕ → Outcome (List ℕ)
unfolding load store
calculate_frequency [] freq = ok freq
calculate_frequency (b ∷ buffer) freq = do
  n ← load freq b
  freq' ← store freq b ((n + 1) % 2 ^ 64)
  calculate_frequency buffer freq'

unfoldable pub node_list_from : ℕ → List ℕ → List FreqNode
node_list_from i [] = []
node_list_from i (f ∷ freq) =
    record { key = i; value = f; bit_array = replicate dict_size 0; length = 0; n_padding = 0 }
    ∷ node_list_from (i + 1) freq

unfoldable pub generate_node_list : List ℕ → List FreqNode
unfolding node_list_from
generate_node_list freq = node_list_from 0 freq

-- The loop of save_bit_array from `i` on, with `left` rounds.
unfoldable pub save_from : ℕ → ℕ → List ℕ → List ℕ → Outcome (List ℕ)
unfolding load set_bit
save_from i zero arr bits = ok bits
save_from i (suc left) arr bits = do
  b ← load arr i
  bits' ← (if b == 1 then set_bit bits i else ok bits)
  save_from (i + 1) left arr bits'

unfoldable pub save_bit_array : List ℕ → ℕ → List ℕ → Outcome (List ℕ)
unfolding save_from
save_bit_array arr n bits = save_from 0 n arr bits

abbrev pub is_null_tree : Tree → Bool
is_null_tree nil = true
is_null_tree (node k f l r) = false

-- `length` is a uint8_t.
unfoldable pub save_leaf : ℕ → List ℕ → ℕ → List FreqNode → Outcome (List FreqNode)
unfolding load store save_bit_array
save_leaf key arr top nodes = do
  n ← load nodes key
  bits ← save_bit_array arr top n.bit_array
  store nodes key (record n {
    length = top % 256;
    n_padding = (if 8 - top % 8 == 8 then 0 else 8 - top % 8);
    bit_array = bits;
  })

-- The codes, with the path so far in `arr`.
unfoldable pub save_codes : Tree → List ℕ → ℕ → List FreqNode → Outcome (List ℕ × List FreqNode)
unfolding store save_leaf
save_codes nil arr top nodes = fault
save_codes (node k f l r) arr top nodes =
    let go_right = store arr top 0 >>= λ a. save_codes r a (top + 1) nodes in
    (if is_null_tree r then ok (arr, nodes) else go_right) >>= λ s.
    let go_left = store s.0 top 1 >>= λ a. save_codes l a (top + 1) s.1 in
    (if is_null_tree l then ok s else go_left) >>= λ u.
    if is_null_tree l && is_null_tree r
    then (save_leaf k u.0 top u.1 >>= λ n. ok (u.0, n))
    else ok u

-- `sort` is qsort with `compare`.
unfoldable pub calculate_bitcode :
    (List FreqNode → List FreqNode) → List FreqNode → Outcome (Tree × List FreqNode)
unfolding create_huffman_tree save_codes
calculate_bitcode sort nodes = do
  let sorted = sort nodes
  root ← create_huffman_tree (map (λ n. n.key) sorted) (map (λ n. n.value) sorted) dict_size
  s ← save_codes root (replicate dict_size 0) 0 nodes
  ok (root, s.1)

-- A value of an `int` that is counted up; past 2^31 - 1 the behaviour is undefined.
unfoldable pub as_int : ℕ → Outcome ℕ
as_int n = if ltb n (2 ^ 31) then ok n else fault

-- What the encoding has written: the bytes, whose number is `compress_len`, and `number_bit`. Both
-- are of type `int`; `as_int` stands where they, or `compress_len * 8`, are computed.
pub record Message : Type 0 where
  pub bytes : List ℕ
  pub number_bit : ℕ

-- One bit more; a byte of fresh memory `garbage` is added where the bytes are full.
unfoldable pub put_bit : ℕ → Message → ℕ → Outcome Message
unfolding set_bit clear_bit as_int
put_bit garbage m b = do
  room ← as_int (length m.bytes * 8)
  let bytes = (if m.number_bit == room then m.bytes ++ garbage ∷ [] else m.bytes)
  next ← as_int (m.number_bit + 1)
  bytes' ← (if b == 1 then set_bit bytes m.number_bit else clear_bit bytes m.number_bit)
  ok (record { bytes = bytes'; number_bit = next })

-- Bits from `j` on, `left` of them, of a bit array.
unfoldable pub put_bits : ℕ → ℕ → ℕ → List ℕ → Message → Outcome Message
unfolding get_bit put_bit
put_bits garbage j zero bits m = ok m
put_bits garbage j (suc left) bits m = do
  b ← get_bit bits j
  m' ← put_bit garbage m b
  put_bits garbage (j + 1) left bits m'

-- The loop over the bytes from the `int` index `i` on.
unfoldable pub encode_bytes : ℕ → List FreqNode → ℕ → List ℕ → Message → Outcome Message
unfolding load put_bits as_int
encode_bytes garbage nodes i [] m = ok m
encode_bytes garbage nodes i (b ∷ buffer) m = do
  n ← load nodes b
  m' ← put_bits garbage 0 n.length n.bit_array m
  i' ← as_int (i + 1)
  encode_bytes garbage nodes i' buffer m'

unfoldable pub clear_from : ℕ → ℕ → List ℕ → Outcome (List ℕ)
unfolding clear_bit
clear_from i zero bytes = ok bytes
clear_from i (suc left) bytes = clear_bit bytes i >>= clear_from (i + 1) left

-- The padding, and the byte that counts it.
unfoldable pub finish_message : Message → Outcome (List ℕ)
unfolding clear_from as_int
finish_message m = do
  room ← as_int (length m.bytes * 8)
  let padding = room - m.number_bit
  bytes ← clear_from m.number_bit padding m.bytes
  ok (bytes ++ padding ∷ [])

unfoldable pub encode_msg : ℕ → List FreqNode → List ℕ → Outcome (List ℕ)
unfolding encode_bytes finish_message
encode_msg garbage nodes buffer =
    encode_bytes garbage nodes 0 buffer (record { bytes = garbage ∷ []; number_bit = 0 })
    >>= finish_message

-- The entries of the dictionary: the length in eight bits, and the code.
unfoldable pub dictionary_entries : ℕ → List FreqNode → Message → Outcome Message
unfolding put_bits
dictionary_entries garbage [] m = ok m
dictionary_entries garbage (n ∷ nodes) m = do
  m' ← put_bits garbage 0 8 (n.length ∷ []) m
  m'' ← put_bits garbage 0 n.length n.bit_array m'
  dictionary_entries garbage nodes m''

unfoldable pub create_dictionary : ℕ → List FreqNode → Outcome (List ℕ)
unfolding dictionary_entries finish_message
create_dictionary garbage nodes =
    dictionary_entries garbage nodes (record { bytes = 0 ∷ []; number_bit = 0 }) >>= finish_message

-- The loop of get_bitcode: the bits it prints.
unfoldable pub read_bits : ℕ → ℕ → List ℕ → Outcome (List ℕ)
unfolding get_bit
read_bits i zero bits = ok []
read_bits i (suc left) bits = do
  b ← get_bit bits i
  rest ← read_bits (i + 1) left bits
  ok (b ∷ rest)

unfoldable pub get_bitcode : List FreqNode → ℕ → Outcome (List ℕ)
unfolding load read_bits
get_bitcode nodes index = do n ← load nodes index; read_bits 0 n.length n.bit_array

-- What main does before it looks at the command: the counts, the tree and the table. The tree is
-- freed by then; it is kept here to speak of the codes.
unfoldable pub prepare :
    (List FreqNode → List FreqNode) → List ℕ → Outcome (List ℕ × (Tree × List FreqNode))
unfolding calculate_frequency generate_node_list calculate_bitcode
prepare sort buffer = do
  freq ← calculate_frequency buffer (replicate dict_size 0)
  r ← calculate_bitcode sort (generate_node_list freq)
  ok (freq, r)

-- The commands of main that give bytes or bits.
pub data Command : Type 0 where
  frequency : ℕ → Command
  bitcode : ℕ → Command
  compress : Command
  dictionary : Command

-- The file that write_msg_to_file writes; `compress_len * 8` bounds the loop that prints the bits,
-- which are left out.
unfoldable pub write_msg_to_file : List ℕ → Outcome (List ℕ)
unfolding as_int
write_msg_to_file out = do room ← as_int (length out * 8); ok out

-- The output of a command: a count, the bits, or the bytes of the file.
unfoldable pub run_command : ℕ → List ℕ → List ℕ → List FreqNode → Command → Outcome (List ℕ)
unfolding load get_bitcode encode_msg create_dictionary write_msg_to_file
run_command garbage buffer freq nodes (frequency index) = load freq index >>= λ n. ok (n ∷ [])
run_command garbage buffer freq nodes (bitcode index) = get_bitcode nodes index
run_command garbage buffer freq nodes compress =
    encode_msg garbage nodes buffer >>= write_msg_to_file
run_command garbage buffer freq nodes dictionary =
    create_dictionary garbage nodes >>= write_msg_to_file

-- The whole program, with the tree behind the codes.
unfoldable pub run_huffman :
    (List FreqNode → List FreqNode) → ℕ → List ℕ → Command → Outcome (Tree × List ℕ)
unfolding prepare run_command
run_huffman sort garbage buffer command = do
  (freq, (root, nodes)) ← prepare sort buffer
  out ← run_command garbage buffer freq nodes command
  ok (root, out)
