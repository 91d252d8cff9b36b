-- ===== src/Lib.antt =====
-- filtergen compiles a packet filter policy to the rules of a packet filter of some system. A front
-- end (input/filtergen) parses the policy to a syntax tree and `convert` of its glue.c turns that
-- into a tree of `struct filter` (filter.h, filter.c). A back end (output/) calls `filter_nogroup`,
-- if its system has no chains, and `filter_unroll`, and then `filtergen_cprod` (gen.c), which walks
-- the tree and calls the back end's rule function once for each path with a filled entry; the
-- rule function builds a line with `strapp` (fg-util.c) and writes it with `oputs` (oputs.c).
--
-- Base     C strings, `int`, and programs that may stop: `abort()` and `exit()` are values.
-- Filter   filter.h and filter.c. Filter/Types and Filter/Tree hold the data, Filter/Build the
--          constructors `new_filter_*` with `str_to_int`, and Filter/Append, Filter/Negation,
--          Filter/Unroll, Filter/Targets and Filter/Groups the passes `filter_append`,
--          `__filter_neg_expand`, `__filter_unroll`, `__filter_targets_to_end` with
--          `filter_unroll`, and `filter_nogroup`. Filter/Trails and Filter/Packets are the
--          specification: the list of paths of a tree, the packets that a parsed tree means, and
--          the packets that a list of paths selects. Filter/Shape, Filter/Plain and the modules
--          under the passes say which trees are well formed between the passes.
-- Gen      gen.h, gen.c and flags.h. Gen/Entry holds `struct filterent` and the callbacks,
--          Gen/Check `applydefaults` and `checkmatch`, Gen/Apply `__fg_applyone`, `__fg_apply`,
--          `__fg_applylist` and `filtergen_cprod`. Gen/Apply/Paths is the specification of the
--          walk, one path at a time. Gen/Compile joins the passes and the walk.
-- Output   the back ends: Output/Strapp (fg-util.c, util.h, oputs.c), Output/Cisco
--          (output/cisco/fg-cisco.c), Output/Ipfilter (output/ipfilter/fg-ipfilter.c), Output/Emit
--          (output/filtergen/emit.c), Output/Iptables (output/iptables/fg-iptables.c),
--          Output/Restore (output/iptablesrestore/fg-iptablesrestore.c) and Output/Ipchains
--          (output/ipchains/fg-ipchains.c). For the last three, Match builds the text of the
--          conditions, Choice is the switches on direction and target, Skeleton what stands around
--          the rules, with the flush; the C files repeat each other, so Restore and Ipchains use
--          what is the same in Output/Iptables. Output/Lines is about lists of lines.
-- Glue     input/filtergen/ast.h and glue.c: Glue/Ast the syntax tree, Glue/Arguments the
--          conversions of arguments, Glue/Convert the conversions that call one another. Glue/Full
--          and Glue/Built are about the trees that `convert` builds, and Glue/Lost is about what they
--          leave out. Glue/Policy joins all parts: `convert`, then the function of a back end
--          that has no chains. Glue/Chains does so for the back ends with chains, from the tree on.
-- Resolve  input/filtergen/resolver.c, and icmpent.c in Resolve/Icmp: names in the syntax tree
--          become numbers. Resolve/Hosts is about the lists of arguments.
-- Save     input/iptables-save: Save/Tree is ast.h and Save glue.c, the syntax tree of iptables-save and
--          its conversion, which leaves little; Save/Policies says what. Save/Scanner, Save/Grammar
--          and Save/Printer are scanner.l, parser.y and t/emit.c; Save/Printable says which trees
--          can be read back, and Save/Words, Save/Arguments, Save/Options and Save/RoundTrip read
--          them.
-- Syntax   the filtergen language as text: Syntax/Scanner is scanner.l, a state machine over the bytes;
--          Syntax/Grammar the productions of parser.y, each a relation between the lexemes before,
--          the tree it builds and the lexemes left; Syntax/Printer is t/emit.c. Syntax/Printable
--          says which trees can be read back, Syntax/Words, Syntax/Arguments and Syntax/RoundTrip
--          read them, and Syntax/Comments is about comments.
-- Source   sourcefile.c, the stack of files, and Source/Include, include.c with the end of a file in
--          scanner.l. Source/Lists is the specification: the files that an `include` names, in
--          order. Source/Order, Source/Ends and Source/Stacked are about one `include`,
--          Source/Counts, Source/Kept and Source/Reached about every sequence of them.
-- Ir       ir/ir.h and the printer ir/emit.c; Ir/Nested is its specification and proof.
-- Command  filtergen.c: Command/Options the loop over the options, Command/Tables the tables of
--          parsers and back ends with `filtergen_source_parser` of glue.c, and Command `main` from
--          there on. Command/Results, Command/Flushing and Command/Whole are about its runs.
--
-- How the model corresponds to the C code:
--   A `struct filter *` is `null` or a node with its `next`; a node is a leaf with its payload,
--   or a negation, a list of siblings or a subgroup, each with the list inside, its `negate`, its
--   position and its `child`. The passes change the tree in place; here they return the new tree.
--   After `filter_append` several nodes share what was appended: here it stands below each of
--   them, so the model is the unfolding of the C graph, and the check for a loop in
--   `filter_append` never applies. Shared nodes stand inside lists of siblings only, where
--   `__filter_targets_to_end`, the pass that would move them, does not go. The C loop of
--   `__filter_unroll` unrolls the siblings behind the one at hand again each time, since
--   `__filter_unroll` goes on along `next`; here the list is unrolled once, before appending. A
--   node whose tag and payload do not belong together is `other`.
--   The bit sets `whats_set` and `whats_negated` are predicates on tags. A function of gen.c returns
--   a negative number (`failed`), a count, or does not return (`aborted`): the back end calls `abort()`,
--   or the message of `_NA` prints an integer with `%s`, that is, follows it as a pointer, which is
--   taken to end the program. What has been written is passed along as the state of the back end.
--   The static counter of `convert_chaingroup_specifier` is passed along by the conversions.
--   The C library and the tables of protocols and services (`strtol`, `getprotobyname`,
--   `getservbyname`, `inet_aton`, `inet_ntoa`, `%d`) are the parameter `Libc`; `getaddrinfo` with
--   `getnameinfo`, and what memory holds that resolver.c has not written, are `Network`; the
--   generated parser, what comes of an iptables-save file, the nftables back end in Rust, whether
--   the output can be opened and what `printf` writes for a null string are `System`; the file system
--   that an `include` reads is `FileSystem`.
--   The results of `getopt_long` are a list of options. A line that is written is a text without its
--   newline: `oprintf` with a format that ends in a newline adds one, and several lines of one format
--   are several texts. `*feat` is a record of three bits, of which T_REJECT (20) sets two.
--
-- All functions are structural, and need no fuel, but for the loop over the octets of an IPv6 mask,
-- which has fuel 128: its counter starts at most at 127 and goes down by 8; and but for `include_file`,
-- which calls itself for the entries of a directory with a longer name each time: since `stat` fails
-- on a name that is too long, two more than the length allowed are enough.
--
-- Not modelled: messages to stderr, memory that runs out, `free`, the overflow of the `int` that
-- counts rules, `filter_noneg` (empty), the tables that bison and flex generate, positions in files,
-- `ipts_source_parser` (it opens a file, parses and calls `ipts_convert`), ir.c (it allocates and
-- frees), the test programs but for the printers of syntax trees, the stub factoriser.c, which
-- option `getopt_long` finds in an argument, and the Rust rewrite.
pub mod Base
pub mod Filter
pub mod Gen
pub mod Output
pub mod Glue
pub mod Resolve
pub mod Command
pub mod Save
pub mod Syntax
pub mod Source
pub mod Ir
