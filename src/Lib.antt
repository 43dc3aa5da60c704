-- ===== src/Lib.antt =====
-- Models of the programs and modules of this repository that have logic of their own, with the
-- theorems that make them correct.
--
-- What is modelled, and where:
--   Prelude     lists, arrays, integers, division, undefined runs: what the models share
--   Stack       algorithm/stack/seqstack/seqstack.c (Stack/Seq) and the stack that
--               exam/haier/bracketMatch.c carries with it (Stack/Fixed); Stack/Lifo says what a
--               stack promises, and Stack/Api is the interface that the clients take
--   Bracket     caculate of algorithm/stack/app/bracketMatch.c and of exam/haier/bracketMatch.c,
--               over the interface of the stacks
--   Postfix     algorithm/stack/app/postfixExpression.c: getop, and the loop of main
--   Convert     algorithm/stack/app/expressionConvert.c: getop, and main from its loop on
--   Power       algorithm/stack/app/powerExpression.c: caculate, with its powers (Exponents)
--   Heap        the nodes of the linked list and the linked stack, allocated and freed
--   LinkList    algorithm/list/single_linklist/single_linklist.c
--   LinkStack   algorithm/stack/linkstack/linkstack.c
--   SeqList     algorithm/list/seqlist/seqlist.c
--   Sort        algorithm/sort/sort.c: insert_sort and bubble_sort, and quick_sort (Quick)
--   BinTree     algorithm/tree/bitree/bitree.c
--   FindSort    algorithm/tree/app/findSort/main.c: insert_node, find, sort
--   ExprTree    algorithm/tree/app/expressionOperation/main.c and its stack.c
--   Rpc         rpc_intf/intf/rpc_intf.c (messages, and Intf for the socket and addresses),
--               rpc_intf/lib/utils.c, rpc_intf/src/rpc_cmd.c, and the loops of
--               rpc_intf/src/server.c and rpc_intf/src/client.c
--   Config      config_file/config1.c (Pairs) and config_file/config2.c (Columns)
--   CpuHotplug  kernel_module/qos/cpuhp-qos.c: the callbacks, the control thread (Control), the
--               device (Device), initialisation and exit (Lifetime)
--   Qos         kernel_module/qos/cpufreq-qos.c (Qos/Cpufreq) and kernel_module/qos/devfreq-qos.c
--               (Qos/Devfreq): the calls on a device, initialisation and exit (Lifetime of each),
--               the notifier; Qos/Api is what they use of the kernel's requests for bounds
--   SmcHelper   kernel_module/smc/smc_helper.c: the calls on the device, initialisation and exit
--   WorkTest    kernel_module/workqueue_test/work-test.c: its file in /proc (Listing), initialisation
--               and removal (Creation, Balance), the callback for CPUs (Online); WorkTest/Idr is
--               what it uses of the kernel's idr
--   CharDrv     kernel_module/char_drv/char_drv.c: initialisation and exit
--   PcieCan     hardware/pcie_sysfs_can.c: CAN messages by registers (Messages), and the address of
--               a region (Address)
--   FpgaSocket  socket/fpga_socket/fpga_socket.c: fpga_write and fpga_read
--   Exam        exam/point_to_offer: duplicate of 0301_duplicateInArray.c (InPlace), duplicate and
--               countRange of 0302_duplicateInArray.c, 0401_findInMatrix.c, mergeArray of
--               05_mergeArray.c; get_len of exam/huawei/getPathLen.c (PathLen); and
--               exam/haier/matrixMultiplication.c (MatrixProduct)
--
-- How they correspond. A function of the source is a function of the same task; a struct is a
-- record; a pointer that may be NULL is an Option, except that a tree owns its nodes and its NULL
-- is a constructor. A function that changes an object returns the new object beside its result.
-- What C leaves undefined (an access out of bounds, a null dereference, an overflow of int) is the
-- result none (crash for the linked structures, whose runs may also be out of fuel), so that a
-- theorem that a call returns some value says also that it is defined. The results of malloc,
-- calloc, the socket and the kernel are arguments. Integers of the source that only move or
-- compare are integers without bound; arithmetic on int is checked against its range, and on
-- unsigned types it is taken modulo the power of two. A char is signed.
--
-- Bounds and fuel. The loop of the calculator runs on fuel, and every round but the last takes a
-- character from the input, so that more fuel than the input is long is enough. The control thread
-- runs on fuel up to where it sleeps; a round moves the number of online CPUs by one, so that one
-- round more than there are CPUs is enough. bitree_init runs on fuel, too. The loops over linked
-- nodes run on fuel, and more fuel than there are nodes is enough. The loop of the converter is
-- like that of the calculator. The loop of partition and the recursion of qsort run on one more
-- than the length of the range, the search in a matrix on one more than its rows and columns, the
-- search for a duplicate on one more than the length of the array, the readers of configuration
-- files on one more than the length of the file: the definitions give this fuel themselves, and the
-- theorems on them say that it is enough. The loop of the expression trees takes a round for each
-- token and each end of a line, and one for the end of the input. A listing of the works runs on one
-- more than the limit of their numbers. do_write_fpga_ram takes its fuel as
-- an argument, and one more than the length of the data is enough for a socket that takes every
-- frame.
--
-- How the parts interact. Bracket, Postfix, Convert and Power are clients of the interface
-- Stack/Api, which Stack/Seq and Stack/Fixed implement. Both parts of Qos are clients of Qos/Api, and
-- WorkTest is one of WorkTest/Idr. PcieCan reads lines as Config does.
-- FindSort and ExprTree build on BinTree, and ExprTree takes digits and numbers from Postfix. In Rpc,
-- Message is used by Server, which runs Commands on what it receives, and Client runs against
-- Server. In CpuHotplug the thread's calls into the kernel run the module's own callbacks.
-- LinkList and LinkStack keep their nodes in Heap, and share its lemmas on chains.
--
-- Not modelled: exam/huawei/processTask.c, which is left for later; the opening of the FPGA
-- socket; log/ipmitool_log.c, a copy of the logger of another project; demonstrations of system
-- calls, sockets, devices, ciphers and of kernel behaviour, where nearly all that happens is outside
-- of this repository.
pub mod BinTree
pub mod Bracket
pub mod CharDrv
pub mod Config
pub mod Convert
pub mod CpuHotplug
pub mod Exam
pub mod ExprTree
pub mod FindSort
pub mod FpgaSocket
pub mod Heap
pub mod LinkList
pub mod LinkStack
pub mod PcieCan
pub mod Postfix
pub mod Power
pub mod Prelude
pub mod Qos
pub mod Rpc
pub mod SeqList
pub mod SmcHelper
pub mod Sort
pub mod Stack
pub mod WorkTest
