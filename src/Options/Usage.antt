-- ===== src/Options/Usage.antt =====
-- The usage text of source/util.cpp, `Doc`, piece by piece as it is printed.
use huntind.Common.{List, [], ◌∷◌}
use huntind.Common.Batches.{join}
use huntind.Strings.{Text, codes}
use huntind.Log.{red, cyan}

abbrev usage_pieces : List Text
usage_pieces =
    codes "\t用法: \n"
    ∷ codes "\t-J, --workers=1               处理流量包的线程数 (默认 1)\n"
    ∷ codes
        "\t-F, --filter=\"filter\"         pcap filter (https://linux.die.net/man/7/pcap-filter)\n"
    ∷ codes "                              "
    ∷ red (codes "\t非常重要,必须设置并排除镜像流量服务器和kafka集群之间的流量,比如 \"not port 9092\"\n")
    ∷ codes "\t-f, --fill=0                  空字节填充值 (默认 0)\n"
    ∷ codes "\t-D, --duration=-1             D秒后结束抓包  (默认 -1, non-stop)\n"
    ∷ codes "\t-N, --num=-1                  指定抓包的数量 (默认 -1, non-stop)\n"
    ∷ codes "\t-E, --timeout=20              flow超时时间(新到达的packet距离上一个packet的时间) (默认 20)\n"
    ∷ codes "\t-M, --model                   torch script模型文件路径\n"
    ∷ codes "\t-L, --min=10                  合并成流/json的时候，指定流的最 小 packet数量 (默认 10)\n"
    ∷ codes "\t-R, --max=100                 合并成流/json的时候，指定流的最 大 packet数量 (默认 100)\n"
    ∷ codes "\t-S, --stride=8                将 S 位二进制串转换为 uint 数值 (默认 8)\n"
    ∷ codes "\t-p, --payload=0               包含 n 字节的 payload (默认 0)\n"
    ∷ codes "\t    --pool=4                  kafka 连接池大小 (默认 4)\n"
    ∷ codes "\t    --brokers=STRING          消息队列服务器地址\n"
    ∷ codes "\t    --wait1=10                抓包多久处理一次\n"
    ∷ codes "\t    --wait2=10                没有数据包等再待多久\n"
    ∷ codes "\t    --partition=1             消息队列分区数 (默认 1)\n"
    ∷ codes "\t    --topic=STRING            消息队列 topic\n"
    ∷ codes "\t    --sep=,                   csv列分隔符 (默认 ,)\n"
    ∷ codes "\t-----------------"
    ∷ cyan (codes "以下选项不需要传入值")
    ∷ codes "----------------------------\n"
    ∷ codes "\t-T, --timestamp               包含时间戳(秒,毫秒) (默认 不包含)\n"
    ∷ codes "\t-C, --caplen                  包含报文长度 (默认 不包含)\n"
    ∷ codes "\t-I, --index                   包含五元组 (默认 不包含)\n"
    ∷ codes "\t-h, --help                    用法帮助\n"
    ∷ codes "\n"
    ∷ []

unfoldable pub doc : Text
doc = join usage_pieces
